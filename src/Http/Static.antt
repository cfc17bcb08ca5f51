-- ===== src/Http/Static.antt =====
-- `serveStaticFiles` and `redirectPermanently` of proxy/backend-http.go.
use Prim.Native.String.{String, ◌++◌ as str_append}
use rp.Prelude.{
  Bool, true, false, not, ◌||◌, Option, none, some, List, [], ◌∷◌, ◌++◌, if◌then◌else◌,
}
use rp.Prelude.Text.{string_eq, ◌=?◌}
use rp.Prelude.Words.{has_prefix, has_suffix}
use rp.Http.{Root, Reply, http_error, redirect, file}
use rp.Http.Paths.{split, clean_parts, path_clean, trim_prefix, trim_slash, has_char}

abbrev pub is_get : String → Bool
is_get method = method =? "GET" || method =? "HEAD"

unfoldable pub redirect_permanently : String → String → Reply
redirect_permanently method path = redirect (if is_get method then 301 else 303) path

-- A part that is hidden or holds a backslash.
abbrev pub is_hidden : String → Bool
is_hidden part = has_prefix part "." || has_char b'\\' part

unfoldable pub any_hidden : List String → Bool
any_hidden [] = false
any_hidden (part ∷ parts) = is_hidden part || any_hidden parts

-- From `docRoot.Open` on.
unfoldable pub open_file : Root → List String → Reply
open_file root p =
    if root.opens p then if root.is_regular p then file p else http_error 403 else http_error 404

unfoldable pub serve_found : Root → String → String → List String → Bool → Reply
unfolding redirect_permanently open_file
serve_found root method path p true =
    if not (has_suffix path "/")
    then redirect_permanently method (str_append path "/")
    else elim (root.is_dir (p ++ "index.html" ∷ [])) [
      | none ↦ http_error 403
      | some true ↦ http_error 403
      | some false ↦ open_file root (p ++ "index.html" ∷ [])
    ]
serve_found root method path p false =
    if has_suffix path "/" then redirect_permanently method (trim_slash path) else open_file root p

-- The parts of the path below the prefix. `filepath.Join` drops the empty ones.
unfoldable pub parts_below : String → String → List String
parts_below path prefix = split (trim_prefix (trim_prefix path prefix) "/")

unfoldable pub serve_parts : Root → String → String → List String → Reply
unfolding serve_found clean_parts any_hidden
serve_parts root method path parts =
    if any_hidden parts then http_error 404 else elim (root.is_dir (clean_parts parts)) [
      | none ↦ http_error 404
      | some dir ↦ serve_found root method path (clean_parts parts) dir
    ]

unfoldable pub serve_static_files : Option Root → String → String → String → Reply
unfolding serve_parts redirect_permanently parts_below path_clean
serve_static_files none method path prefix = http_error 404
serve_static_files (some root) method path prefix =
    if not (is_get method)
    then http_error 405
    else if not (path_clean path =? path)
    then redirect_permanently method (path_clean path)
    else serve_parts root method path (parts_below path prefix)
