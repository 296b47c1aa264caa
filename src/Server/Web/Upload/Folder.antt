-- ===== src/Server/Web/Upload/Folder.antt =====
-- server/web/upload_handler.go: the paths that resolveUploadDir gives.
use Prim.Native.String.{◌++◌ as append}
use text.Mathlib.TextLemmas.{cons-append, append_assoc}
use tiny_file_watcher.Prelude.{
  ◌≡◌, refl, sym, ap, ◌∙◌, String, true, false, ◌||◌, none, some, List, [], ◌∷◌, ◌++◌, ◌==◌, ◌⊎◌,
  inl, inr, All, All-append, Bool-cases, eq_iff, arith, strip_prefix, strip_prefix-append,
}
use tiny_file_watcher.Internal.FilePath.{slash, is_sep, join}
use tiny_file_watcher.Internal.FilePath.Split.{
  IsElem, spell, dir_path, render-spell, no_sep, cons-not_empty,
}
use tiny_file_watcher.Internal.FilePath.Canonical.{join-dir_path}
use tiny_file_watcher.Server.Web.Upload.{contains_slash, resolve_upload_dir}

join-spell :
    (xs : List String) (n folder : String)
    → All IsElem xs
    → IsElem n
    → IsElem folder
    → join (spell xs n) folder ≡ spell (xs ++ n ∷ []) folder
unfolding dir_path
join-spell xs n folder h e f =
    ap (λ d. join d folder) (sym (render-spell xs n))
    ∙ join-dir_path (xs ++ n ∷ []) folder (All-append IsElem xs (n ∷ []) h (e, tt)) f

spell-below :
    (xs : List String) (n folder : String)
    → spell (xs ++ n ∷ []) folder ≡ append (spell xs n) (String.◌∷◌ slash folder)
unfolding spell
spell-below [] n folder = sym (cons-append slash n _)
spell-below (x ∷ xs) n folder =
    ap (String.◌∷◌ slash)
      (ap (append x) (spell-below xs n folder) ∙ sym (append_assoc x (spell xs n) _))
    ∙ sym (cons-append slash (append x (spell xs n)) _)

plain_folder : (s : String) → contains_slash s ≡ false → no_sep s ≡ true
unfolding contains_slash is_sep
plain_folder String.[] h = refl
plain_folder (String.◌∷◌ c s) h = ground (arith, plain_folder s)

spell-not_empty : (xs : List String) (n : String) → (spell xs n == "") ≡ false
unfolding spell
spell-not_empty [] n = cons-not_empty slash n
spell-not_empty (x ∷ xs) n = cons-not_empty slash _

-- For a watcher whose source path is absolute and spelled by proper elements, and a folder other
-- than ".": an upload without a folder goes to the source path itself; a folder with a slash or a
-- backslash, or "..", is refused; any other folder is accepted, is a proper element, and the upload
-- goes to the entry of that name right below the source path.
pub resolve_upload_dir_lem :
    (xs : List String) (n folder : String)
    → All IsElem xs
    → IsElem n
    → (folder == ".") ≡ false
    → ((folder ≡ "") × (resolve_upload_dir (spell xs n) folder ≡ some (spell xs n)))
      ⊎ ((contains_slash folder || folder == ".." ≡ true)
          × (resolve_upload_dir (spell xs n) folder ≡ none))
      ⊎ (IsElem folder
          × (resolve_upload_dir (spell xs n) folder ≡ some (spell (xs ++ n ∷ []) folder)))
unfolding resolve_upload_dir
resolve_upload_dir_lem xs n folder h e dot = elim (Bool-cases (folder == "")) [
  | inl z ↦ inl ((eq_iff folder "").0 z, rw z refl)
  | inr z ↦ elim (Bool-cases (contains_slash folder || folder == "..")) [
    | inl b ↦ inr (inl (b, rw (z, b) refl))
    | inr b ↦
        let f : IsElem folder = record {
          plain = plain_folder folder (ground arith);
          not_empty = z;
          not_dot = dot;
          not_dots = ground arith;
        } in
        let j : join (spell xs n) folder ≡ spell (xs ++ n ∷ []) folder =
          join-spell xs n folder h e f in
        let p : strip_prefix (spell xs n) (spell (xs ++ n ∷ []) folder)
            ≡ some (String.◌∷◌ slash folder) =
          ap (strip_prefix (spell xs n)) (spell-below xs n folder)
          ∙ strip_prefix-append (spell xs n) (String.◌∷◌ slash folder) in
        inr (inr (f, rw (z, b) (rw j (rw p refl))))
  ]
]
