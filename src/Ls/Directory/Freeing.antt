-- ===== src/Ls/Directory/Freeing.antt =====
-- Which entries lab2_ls/myls.c frees, and how often.
use secured_operation_system.Base.{
  ℕ, ◌≡◌, refl, ap, ◌∙◌, some, List, [], ◌∷◌, ◌++◌, Bytes, All, true, false, Bool, arith,
}
use secured_operation_system.Ls.Directory.{
  Fs, Dirent, Shown, hidden, row, path_too_long, lstat_failed, show_entry, addresses, after_show,
  display_entries, Result, sort, copies, process_directory,
}

-- The entry is left out or shown, without an error.
abbrev is_fine : Shown → Bool
is_fine hidden = true
is_fine (row r) = true
is_fine path_too_long = false
is_fine lstat_failed = false

module _ (fs : Fs) (flags : ℕ) (location : Bytes) where
  abbrev IsFine : Dirent → Type 0
  IsFine e = is_fine (show_entry fs flags location e.d_name) ≡ true

  after_show-fine :
      (list : List Dirent) (e : Dirent) (rest : Result) (s : Shown)
      → is_fine s ≡ true
      → ((after_show list e rest s).freed ≡ e.address ∷ rest.freed)
        × ((after_show list e rest s).status ≡ rest.status)
  after_show-fine list e rest hidden h = (refl, refl)
  after_show-fine list e rest (row r) h = (refl, refl)
  after_show-fine list e rest path_too_long h = absurd (ground arith)
  after_show-fine list e rest lstat_failed h = absurd (ground arith)

  display_entries-append :
      (list before after : List Dirent)
      → All IsFine before
      → ((display_entries fs flags location list (before ++ after)).freed
          ≡ addresses before ++ (display_entries fs flags location list after).freed)
        × ((display_entries fs flags location list (before ++ after)).status
            ≡ (display_entries fs flags location list after).status)
  unfolding display_entries
  display_entries-append list [] after h = (refl, refl)
  display_entries-append list (e ∷ es) after h =
      let (freed, status) = display_entries-append list es after h.1 in
      let (f, s) =
        after_show-fine list e (display_entries fs flags location list (es ++ after))
          (show_entry fs flags location e.d_name) h.0 in
      (f ∙ ap (λ t. e.address ∷ t) freed, s ∙ status)

  display_entries-fine :
      (list es : List Dirent)
      → All IsFine es
      → ((display_entries fs flags location list es).freed ≡ addresses es)
        × ((display_entries fs flags location list es).status ≡ 0)
  unfolding display_entries
  display_entries-fine list [] h = (refl, refl)
  display_entries-fine list (e ∷ es) h =
      let (freed, status) = display_entries-fine list es h.1 in
      let (f, s) =
        after_show-fine list e (display_entries fs flags location list es)
          (show_entry fs flags location e.d_name) h.0 in
      (f ∙ ap (λ t. e.address ∷ t) freed, s ∙ status)

  opened :
      (names : List Bytes)
      → fs.opendir location ≡ some (names, false)
      → process_directory fs flags location
        ≡ display_entries fs flags location (sort (copies 0 names)) (sort (copies 0 names))
  unfolding process_directory
  opened names e = rw (e, process_directory) refl

  -- Where every entry is left out or shown, the exit status is 0 and each entry is freed exactly
  -- once, in the order in which they are sorted.
  pub process_directory-freed :
      (names : List Bytes)
      → fs.opendir location ≡ some (names, false)
      → All IsFine (sort (copies 0 names))
      → ((process_directory fs flags location).freed ≡ addresses (sort (copies 0 names)))
        × ((process_directory fs flags location).status ≡ 0)
  process_directory-freed names e h =
      rw (opened names e) (display_entries-fine (sort (copies 0 names)) (sort (copies 0 names)) h)

  twice :
      (before after : List Dirent) (e : Dirent)
      → All IsFine before
      → show_entry fs flags location e.d_name ≡ lstat_failed
      → (display_entries fs flags location (before ++ e ∷ after) (before ++ e ∷ after)).freed
        ≡ addresses before ++ (e.address ∷ addresses (before ++ e ∷ after))
  unfolding display_entries
  twice before after e h k =
      let list : List Dirent = before ++ e ∷ after in
      (display_entries-append list before (e ∷ after) h).0
      ∙ ap
          (λ (s : Shown).
            addresses before
            ++ (after_show list e (display_entries fs flags location list after) s).freed)
          k

  -- Where `lstat` fails for an entry, the entries up to it have been freed, that entry too, and the
  -- cleanup then frees the whole list again: the program frees them twice.
  pub process_directory-freed_twice :
      (names : List Bytes) (before after : List Dirent) (e : Dirent)
      → fs.opendir location ≡ some (names, false)
      → sort (copies 0 names) ≡ before ++ e ∷ after
      → All IsFine before
      → show_entry fs flags location e.d_name ≡ lstat_failed
      → (process_directory fs flags location).freed
        ≡ addresses before ++ (e.address ∷ addresses (before ++ e ∷ after))
  process_directory-freed_twice names before after e there sorted h k =
      rw (opened names there, sorted) (twice before after e h k)
