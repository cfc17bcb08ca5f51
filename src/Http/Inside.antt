-- ===== src/Http/Inside.antt =====
-- Which files `serveStaticFiles` can send.
use Prim.Native.String.{String}
use rp.Prelude.{
  ◌≡◌, refl, inl, inr, Bool, true, false, Option, none, some, List, [], ◌∷◌, ◌++◌, Bool-cases,
  Option-cases, arith,
}
use rp.Prelude.Text.{string_eq, ◌=?◌}
use rp.Prelude.Words.{has_prefix, has_suffix}
use rp.Http.{Root, file}
use rp.Http.Paths.{
  clean_parts, clean_onto, take_part, reverse_onto, path_clean, trim_prefix, has_char,
}
use rp.Http.Clean.{
  Plain, AllPlain, AllWhole, split-Whole, clean_onto-Plain, Cleaned, path_clean_iff,
}
use rp.Http.Static.{
  is_get, is_hidden, any_hidden, redirect_permanently, open_file, serve_found, parts_below,
  serve_parts, serve_static_files,
}

-- Parts that lead into the directory: none is empty or a dot segment, holds a slash or a
-- backslash, or starts with a dot.
abbrev pub Inward : List String → Type 0
Inward [] = Unit
Inward (s ∷ ss) = (Plain s × (is_hidden s ≡ false)) × Inward ss

Inward-of : (ss : List String) → AllPlain ss → any_hidden ss ≡ false → Inward ss
unfolding any_hidden
Inward-of [] h k = tt
Inward-of (s ∷ ss) h k = ((h.0, ground arith), Inward-of ss h.1 (ground arith))

any_hidden-reverse_onto :
    (xs out : List String)
    → any_hidden xs ≡ false
    → any_hidden out ≡ false
    → any_hidden (reverse_onto xs out) ≡ false
unfolding any_hidden
any_hidden-reverse_onto [] out h k = k
any_hidden-reverse_onto (x ∷ xs) out h k =
    any_hidden-reverse_onto xs (x ∷ out) (ground arith) (ground arith)

any_hidden-take_part :
    (done : List String) (part : String)
    → any_hidden done ≡ false
    → is_hidden part ≡ false
    → any_hidden (take_part done part) ≡ false
unfolding any_hidden
any_hidden-take_part [] part h k = ground arith
any_hidden-take_part (d ∷ done) part h k = ground arith

any_hidden-clean_onto :
    (done parts : List String)
    → any_hidden done ≡ false
    → any_hidden parts ≡ false
    → any_hidden (clean_onto done parts) ≡ false
unfolding clean_onto any_hidden
any_hidden-clean_onto done [] h k = any_hidden-reverse_onto done [] h refl
any_hidden-clean_onto done (part ∷ parts) h k =
    any_hidden-clean_onto (take_part done part) parts
      (any_hidden-take_part done part h (ground arith)) (ground arith)

Inward-append : (xs ys : List String) → Inward xs → Inward ys → Inward (xs ++ ys)
Inward-append [] ys h k = k
Inward-append (x ∷ xs) ys h k = (h.0, Inward-append xs ys h.1 k)

-- The file was there, and is a regular file.
abbrev pub Sent : Root → List String → Type 0
Sent root p = (root.opens p ≡ true) × (root.is_regular p ≡ true)

open_file-Sent :
    (root : Root) (p q : List String) → open_file root p ≡ file q → (p ≡ q) × Sent root p
unfolding open_file
open_file-Sent root p q h = elim (Bool-cases (root.opens p)) [
  | inr e ↦ absurd (ground arith)
  | inl e ↦ elim (Bool-cases (root.is_regular p)) [
    | inr f ↦ absurd (ground arith)
    | inl f ↦ (ground arith, (e, f))
  ]
]

index-Inward : Inward ("index.html" ∷ [])
unfolding has_prefix has_char
index-Inward = ((((λ e. cc), (λ e. cc), (λ e. cc), refl), refl), tt)

serve_found-Inward :
    (root : Root) (method path : String) (p q : List String) (dir : Bool)
    → Inward p
    → serve_found root method path p dir ≡ file q
    → Inward q × Sent root q
unfolding serve_found redirect_permanently
serve_found-Inward root method path p q true i h = elim (Bool-cases (has_suffix path "/")) [
  | inr e ↦ absurd (ground arith)
  | inl e ↦ elim (Option-cases (root.is_dir (p ++ "index.html" ∷ []))) [
    | inl f ↦ absurd (ground arith)
    | inr (true, f) ↦ absurd (ground arith)
    | inr (false, f) ↦
        let (same, sent) = open_file-Sent root (p ++ "index.html" ∷ []) q (ground arith) in
        rw (← same) (Inward-append p ("index.html" ∷ []) i index-Inward, sent)
  ]
]
serve_found-Inward root method path p q false i h = elim (Bool-cases (has_suffix path "/")) [
  | inl e ↦ absurd (ground arith)
  | inr e ↦ let (same, sent) = open_file-Sent root p q (ground arith) in rw (← same) (i, sent)
]

serve_parts-Inward :
    (root : Root) (method path : String) (parts q : List String)
    → AllWhole parts
    → serve_parts root method path parts ≡ file q
    → Inward q × Sent root q
unfolding serve_parts
serve_parts-Inward root method path parts q w h = elim (Bool-cases (any_hidden parts)) [
  | inl e ↦ absurd (ground arith)
  | inr e ↦ elim (Option-cases (root.is_dir (clean_parts parts))) [
    | inl f ↦ absurd (ground arith)
    | inr (dir, f) ↦
        let shown = any_hidden-clean_onto [] parts (unfold any_hidden in refl) e in
        let inward : Inward (clean_parts parts) =
          unfold clean_parts in
          Inward-of (clean_onto [] parts) (clean_onto-Plain [] parts tt w) shown in
        serve_found-Inward root method path (clean_parts parts) q dir inward (ground arith)
  ]
]

-- A file is sent only from the document root, for a GET or HEAD of a path that `pathClean` leaves
-- alone. It is a regular file, and no part of its name below the root is empty, a dot segment,
-- starts with a dot, or holds a slash or a backslash.
pub serve_static_files-Inward :
    (doc : Option Root) (method path prefix : String) (q : List String)
    → serve_static_files doc method path prefix ≡ file q
    → (root : Root) × (doc ≡ some root)
      × (is_get method ≡ true)
      × Cleaned path
      × Inward q
      × Sent root q
unfolding serve_static_files redirect_permanently
serve_static_files-Inward none method path prefix q h = absurd (cc)
serve_static_files-Inward (some root) method path prefix q h = elim (Bool-cases (is_get method)) [
  | inr e ↦ absurd (ground arith)
  | inl e ↦ elim (Bool-cases (path_clean path =? path)) [
    | inr f ↦ absurd (ground arith)
    | inl f ↦
        let parts = parts_below path prefix in
        let (inward, sent) =
          serve_parts-Inward root method path parts q
            (unfold parts_below in split-Whole (trim_prefix (trim_prefix path prefix) "/"))
            (ground arith) in
        let clean = (path_clean_iff path).0 ((string_eq.beq_iff (path_clean path) path).0 f) in
        (root, refl, e, clean, inward, sent)
  ]
]
