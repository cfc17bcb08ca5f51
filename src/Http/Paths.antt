-- ===== src/Http/Paths.antt =====
-- `pathClean` of proxy/backend-http.go, and the parts of Go's path and strings packages that it and
-- its callers use. A path is read as the texts between its slashes.
use Prim.Native.Char.{Char, code}
use Prim.Native.String.{String, ◌++◌ as str_append}
use rp.Prelude.{ℕ, Bool, false, not, ◌&&◌, ◌||◌, List, [], ◌∷◌, if◌then◌else◌, ◌==◌}
use rp.Prelude.Text.{string_eq, ◌=?◌}
use rp.Prelude.Words.{has_prefix, has_suffix}

abbrev pub onto_first : Char → List String → List String
onto_first c [] = String.◌∷◌ c "" ∷ []
onto_first c (part ∷ parts) = String.◌∷◌ c part ∷ parts

-- `strings.Split(p, "/")`
unfoldable pub split : String → List String
split String.[] = "" ∷ []
split (String.◌∷◌ c s) =
    let rest = split s in if code c == b'/' then "" ∷ rest else onto_first c rest

abbrev pub pop : List String → List String
pop [] = []
pop (part ∷ parts) = parts

-- One step of `path.Clean` on a rooted path. The path so far has its last part at the head.
abbrev pub take_part : List String → String → List String
take_part done part =
    if part =? "" || part =? "." then done else if part =? ".." then pop done else part ∷ done

abbrev pub reverse_onto : List String → List String → List String
reverse_onto [] out = out
reverse_onto (x ∷ xs) out = reverse_onto xs (x ∷ out)

unfoldable pub clean_onto : List String → List String → List String
clean_onto done [] = reverse_onto done []
clean_onto done (part ∷ parts) = clean_onto (take_part done part) parts

unfoldable pub clean_parts : List String → List String
unfolding clean_onto
clean_parts parts = clean_onto [] parts

-- Each part after a slash.
unfoldable pub rooted : List String → String
rooted [] = ""
rooted (part ∷ parts) = String.◌∷◌ "/" (str_append part (rooted parts))

-- `path.Clean(p)`, for a `p` that starts with a slash.
abbrev pub root_or : List String → String
root_or [] = "/"
root_or (part ∷ parts) = rooted (part ∷ parts)

abbrev pub with_root : String → String
with_root p = if has_prefix p "/" then p else String.◌∷◌ "/" p

abbrev pub with_end : String → String → String
with_end p pp = if not (pp =? "/") && has_suffix p "/" then str_append pp "/" else pp

unfoldable pub path_clean : String → String
unfolding split clean_parts rooted
path_clean p = with_end (with_root p) (root_or (clean_parts (split (with_root p))))

-- `strings.TrimPrefix(s, prefix)`
unfoldable pub after : String → String → String
after String.[] s = s
after (String.◌∷◌ p ps) String.[] = ""
after (String.◌∷◌ p ps) (String.◌∷◌ c s) = after ps s

abbrev pub trim_prefix : String → String → String
trim_prefix s prefix = if has_prefix s prefix then after prefix s else s

-- `strings.TrimSuffix(s, "/")`
unfoldable pub trim_slash : String → String
trim_slash String.[] = ""
trim_slash (String.◌∷◌ c s) =
    let rest = trim_slash s in if String.◌∷◌ c s =? "/" then "" else String.◌∷◌ c rest

-- `_, after, _ = strings.Cut(s, sep)` for one character.
unfoldable pub cut : ℕ → String → String
cut sep String.[] = ""
cut sep (String.◌∷◌ c s) = let rest = cut sep s in if code c == sep then s else rest

-- `strings.Contains(s, "\\")`
unfoldable pub has_char : ℕ → String → Bool
has_char n String.[] = false
has_char n (String.◌∷◌ c s) = code c == n || has_char n s

-- `strings.HasPrefix(path, p)` for some prefix of the list.
unfoldable pub any_prefix : List String → String → String → Bool
any_prefix [] path clean = false
any_prefix (p ∷ ps) path clean = has_prefix path p || has_prefix clean p || any_prefix ps path clean
