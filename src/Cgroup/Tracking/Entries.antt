-- ===== src/Cgroup/Tracking/Entries.antt =====
-- The tracking file as a map from users to paths.
use cpu_manager_go.Prelude.{
  ℕ, ◌≡◌, refl, sym, ap, ◌∙◌, ℤ, pos, negsuc, Bool, true, false, ◌||◌, ◌==◌, Option, none, some,
  List, [], ◌∷◌, ◌++◌, if◌then◌else◌, is_empty, arith, Bool-cases, inl, inr,
}
use cpu_manager_go.Prelude.Dict.{Dict, lookup, lookup-put}
use cpu_manager_go.Prelude.Text.{Bytes, split, split_on, atoi}
use cpu_manager_go.Prelude.Text.Split.{
  AllBytes, AllTexts, other_than, join, split-join, split-AllTexts, AllBytes-join, AllBytes-append,
}
use cpu_manager_go.Cgroup.Tracking.{
  drop_return, scan_lines, lines_of, split_entry, is_uid, other_lines, remove_cgroup_from_file,
  uid_of, pair_of, read_entry, add_entry, load_entries,
}

split_on-sep :
    (sep : ℕ) (s t : Bytes)
    → split_on sep (s ++ sep ∷ t) ≡ ((split_on sep s).0, (split_on sep s).1 ++ split sep t)
unfolding split_on
split_on-sep sep [] t = ground arith
split_on-sep sep (c ∷ s) t = ground (arith, split_on-sep sep s t)

-- The lines of two texts with an end of line between them.
split-sep : (sep : ℕ) (s t : Bytes) → split sep (s ++ sep ∷ t) ≡ split sep s ++ split sep t
split-sep sep s t = ap (λ p. p.0 ∷ p.1) (split_on-sep sep s t)

drop_return-eq : (s : Bytes) → AllBytes (other_than b'\r') s → drop_return s ≡ s
unfolding drop_return AllBytes
drop_return-eq [] h = refl
drop_return-eq (c ∷ []) h = ground arith
drop_return-eq (c ∷ d ∷ s) h = ap (◌∷◌ c) (drop_return-eq (d ∷ s) h.1)

scan_lines-eq : (lines : List Bytes) → AllTexts (other_than b'\r') lines → scan_lines lines ≡ lines
unfolding scan_lines AllTexts
scan_lines-eq [] h = refl
scan_lines-eq (line ∷ lines) h = ground (arith, drop_return-eq line h.0, scan_lines-eq lines h.1)

split_on-AllBytes :
    (p : ℕ → Bool) (sep : ℕ) (s : Bytes)
    → AllBytes p s
    → AllBytes p (split_on sep s).0 × AllTexts p (split_on sep s).1
unfolding split_on AllBytes AllTexts
split_on-AllBytes p sep [] h = (tt, tt)
split_on-AllBytes p sep (c ∷ s) h = ground (arith, split_on-AllBytes p sep s h.1)

other_lines-AllTexts :
    (p : ℕ → Bool) (uid : ℕ) (lines : List Bytes)
    → AllTexts p lines
    → AllTexts p (other_lines uid lines)
unfolding other_lines AllTexts
other_lines-AllTexts p uid [] h = tt
other_lines-AllTexts p uid (line ∷ lines) h = ground (arith, other_lines-AllTexts p uid lines h.1)

split-lines :
    (lines : List Bytes)
    → AllTexts (other_than b'\n') lines
    → (load : List Bytes → Dict Bytes) → load ([] ∷ [] ∷ []) ≡ load []
    → ((xs : List Bytes) → load (xs ++ [] ∷ []) ≡ load xs)
    → load (split b'\n' (join b'\n' lines ++ b'\n' ∷ [])) ≡ load lines
unfolding split_on join
split-lines [] h load two last = two
split-lines (line ∷ lines) h load two last =
    ap load (
      split-sep b'\n' (join b'\n' (line ∷ lines)) []
      ∙ ap (λ l. l ++ [] ∷ []) (split-join b'\n' line lines h))
    ∙ last (line ∷ lines)

module _ (exists : Bytes → Bool) where
  load_entries-last :
      (xs : List Bytes) (d : Dict Bytes)
      → load_entries exists (xs ++ [] ∷ []) d ≡ load_entries exists xs d
  unfolding load_entries
  load_entries-last [] d = refl
  load_entries-last (line ∷ xs) d =
      load_entries-last xs (if is_empty line then d else add_entry exists (read_entry line) d)

  load_entries-filled :
      (line : Bytes) (lines : List Bytes) (d : Dict Bytes)
      → is_empty line ≡ false
      → load_entries exists (line ∷ lines) d
        ≡ load_entries exists lines (add_entry exists (read_entry line) d)
  unfolding load_entries
  load_entries-filled line lines d h =
      ap (λ b. load_entries exists lines (if b then d else add_entry exists (read_entry line) d)) h

  -- The second map is the first without the user.
  abbrev Without : ℕ → Dict Bytes → Dict Bytes → Type 0
  Without uid d e = (j : ℕ) → lookup j e ≡ (if j == uid then none else lookup j d)

  add_entry-Without_same :
      (uid : ℕ) (o : Option ℕ) (path : Option Bytes) (d e : Dict Bytes)
      → ((n : ℕ) → o ≡ some n → n ≡ uid)
      → Without uid d e
      → Without uid (add_entry exists (pair_of o path) d) e
  add_entry-Without_same uid none path d e n w = w
  add_entry-Without_same uid (some u) none d e n w = w
  add_entry-Without_same uid (some u) (some path) d e n w = λ j.
      let here = w j in let same = n u refl in let there = lookup-put j u path d in ground arith

  add_entry-Without_other :
      (uid : ℕ) (o : Option ℕ) (path : Option Bytes) (d e : Dict Bytes)
      → ((n : ℕ) → o ≡ some n → (n == uid) ≡ false)
      → Without uid d e
      → Without uid (add_entry exists (pair_of o path) d) (add_entry exists (pair_of o path) e)
  add_entry-Without_other uid none path d e n w = w
  add_entry-Without_other uid (some u) none d e n w = w
  add_entry-Without_other uid (some u) (some path) d e n w = λ j.
      let here = w j in
      let other = n u refl in
      let there = lookup-put j u path d in let also = lookup-put j u path e in ground arith

  is_uid-yes :
      (uid : ℕ) (o : Option ℤ) → is_uid uid o ≡ true → (n : ℕ) → uid_of o ≡ some n → n ≡ uid
  is_uid-yes uid none h n e = absurd (ground arith)
  is_uid-yes uid (some (pos m)) h n e = ground arith
  is_uid-yes uid (some (negsuc m)) h n e = absurd (ground arith)

  is_uid-no :
      (uid : ℕ) (o : Option ℤ)
      → is_uid uid o ≡ false
      → (n : ℕ) → uid_of o ≡ some n
      → (n == uid) ≡ false
  is_uid-no uid none h n e = absurd (ground arith)
  is_uid-no uid (some (pos m)) h n e = ground arith
  is_uid-no uid (some (negsuc m)) h n e = absurd (ground arith)

  load_entries-Without :
      (uid : ℕ) (lines : List Bytes) (d e : Dict Bytes)
      → Without uid d e
      → Without uid (load_entries exists lines d) (load_entries exists (other_lines uid lines) e)
  unfolding load_entries other_lines
  load_entries-Without uid [] d e w = w
  load_entries-Without uid (line ∷ lines) d e w = elim (Bool-cases (is_empty line)) [
    | inl blank ↦ (let rest = load_entries-Without uid lines d e w in λ j. ground (arith, rest j))
    | inr filled ↦ elim (Bool-cases (is_uid uid (atoi (split_entry line).0))) [
      | inl own ↦
          let next : Without uid (add_entry exists (read_entry line) d) e =
            unfold read_entry in
            add_entry-Without_same uid (uid_of (atoi (split_entry line).0)) (split_entry line).1 d e
              (is_uid-yes uid (atoi (split_entry line).0) own) w in
          let rest = load_entries-Without uid lines (add_entry exists (read_entry line) d) e next in
          λ j. ground (arith, rest j)
      | inr other ↦
          let next : Without uid (add_entry exists (read_entry line) d)
              (add_entry exists (read_entry line) e) =
            unfold read_entry in
            add_entry-Without_other uid (uid_of (atoi (split_entry line).0)) (split_entry line).1 d
              e (is_uid-no uid (atoi (split_entry line).0) other) w in
          let rest =
            load_entries-Without uid lines (add_entry exists (read_entry line) d)
              (add_entry exists (read_entry line) e) next in
          λ j.
            let tests : (is_empty line || is_uid uid (atoi (split_entry line).0)) ≡ false =
              ground arith in
            ap
              (λ b. lookup j (
                load_entries exists
                  (if b then other_lines uid lines else line ∷ other_lines uid lines) e))
              tests
            ∙ ap (lookup j) (load_entries-filled line (other_lines uid lines) e filled)
            ∙ rest j
            ∙ ap (λ m. if j == uid then none else lookup j m)
                (sym (load_entries-filled line lines d filled))
    ]
  ]

  abbrev pub entries_of : Option Bytes → Dict Bytes
  entries_of none = []
  entries_of (some s) = load_entries exists (lines_of s) []

  abbrev pub no_return : ℕ → Bool
  no_return c = other_than b'\r' c

  lines_of-eq : (s : Bytes) → AllBytes no_return s → lines_of s ≡ split b'\n' s
  unfolding lines_of AllTexts
  lines_of-eq s h = scan_lines-eq (split b'\n' s) (split_on-AllBytes no_return b'\n' s h)

  removed_lines :
      (uid : ℕ) (s : Bytes)
      → AllBytes no_return s
      → entries_of (remove_cgroup_from_file uid (some s))
        ≡ load_entries exists (other_lines uid (split b'\n' s)) []
  unfolding remove_cgroup_from_file AllTexts
  removed_lines uid s h =
      let kept = other_lines uid (split b'\n' s) in
      let load : List Bytes → Dict Bytes = λ l. load_entries exists l [] in
      let one_line =
        other_lines-AllTexts (other_than b'\n') uid (split b'\n' s) (split-AllTexts b'\n' s) in
      let plain =
        other_lines-AllTexts no_return uid (split b'\n' s)
          (split_on-AllBytes no_return b'\n' s h) in
      let plain_text =
        AllBytes-append no_return (join b'\n' kept) (b'\n' ∷ [])
          (AllBytes-join no_return b'\n' kept refl plain) (unfold AllBytes in (refl, tt)) in
      ap (λ l. load (lines_of (join b'\n' (other_lines uid l) ++ b'\n' ∷ []))) (lines_of-eq s h)
      ∙ ap load (lines_of-eq (join b'\n' kept ++ b'\n' ∷ []) plain_text)
      ∙ split-lines kept one_line load (unfold load_entries in refl) (λ xs. load_entries-last xs [])

  -- On a tracking file without carriage returns, `removeCgroupFromFile` removes the user from the map
  -- that `loadExistingCgroups` reads, and leaves the path of every other user as it was, whatever else
  -- the lines of the file are.
  pub lookup-remove_cgroup_from_file :
      (uid j : ℕ) (s : Bytes)
      → AllBytes no_return s
      → lookup j (entries_of (remove_cgroup_from_file uid (some s)))
        ≡ (if j == uid then none else lookup j (entries_of (some s)))
  lookup-remove_cgroup_from_file uid j s h =
      ap (lookup j) (removed_lines uid s h)
      ∙ load_entries-Without uid (split b'\n' s) [] [] (λ i. ground arith) j
      ∙ ap (λ l. if j == uid then none else lookup j (load_entries exists l []))
          (sym (lines_of-eq s h))
