-- ===== src/Http/Clean.antt =====
-- What `pathClean` makes of a path.
use Prim.Native.Char.{Char, code}
use Prim.Native.String.{String, ◌++◌ as str_append}
use text.Mathlib.TextLemmas.{nil-append, cons-append, append-nil, append_assoc}
use rp.Prelude.{
  ℕ, ◌≡◌, ◌≢◌, refl, ap, ◌∙◌, inl, inr, ◌↔◌, true, false, ◌||◌, List, [], ◌∷◌, ◌++◌, ◌==◌,
  Bool-cases, arith,
}
use rp.Prelude.Text.{string_eq, ◌=?◌, beq_ne}
use rp.Prelude.Words.{is_empty, has_prefix, has_suffix}
use rp.Http.Paths.{
  split, onto_first, take_part, pop, reverse_onto, clean_onto, clean_parts, rooted, root_or,
  with_root, with_end, path_clean, has_char,
}

-- A part that `path.Clean` keeps, and that a slash cannot split.
abbrev pub Plain : String → Type 0
Plain s = (s ≢ "") × (s ≢ ".") × (s ≢ "..") × (has_char b'/' s ≡ false)

abbrev pub AllPlain : List String → Type 0
AllPlain [] = Unit
AllPlain (s ∷ ss) = Plain s × AllPlain ss

abbrev pub AllWhole : List String → Type 0
AllWhole [] = Unit
AllWhole (s ∷ ss) = (has_char b'/' s ≡ false) × AllWhole ss

onto_first-Whole :
    (c : Char) (parts : List String)
    → (code c == b'/') ≡ false
    → AllWhole parts
    → AllWhole (onto_first c parts)
unfolding has_char
onto_first-Whole c [] h w = (ground arith, tt)
onto_first-Whole c (part ∷ parts) h w = (ground (arith, w.0), w.1)

pub split-Whole : (p : String) → AllWhole (split p)
unfolding split has_char
split-Whole String.[] = (refl, tt)
split-Whole (String.◌∷◌ c s) = elim (Bool-cases (code c == b'/')) [
  | inl e ↦ rw e (refl, split-Whole s)
  | inr e ↦ rw e (onto_first-Whole c (split s) e (split-Whole s))
]

reverse_onto-Plain :
    (xs out : List String) → AllPlain xs → AllPlain out → AllPlain (reverse_onto xs out)
reverse_onto-Plain [] out h k = k
reverse_onto-Plain (x ∷ xs) out h k = reverse_onto-Plain xs (x ∷ out) h.1 (h.0, k)

pop-Plain : (done : List String) → AllPlain done → AllPlain (pop done)
pop-Plain [] h = tt
pop-Plain (d ∷ done) h = h.1

plain :
    (part : String)
    → (part =? "" || part =? ".") ≡ false
    → (part =? "..") ≡ false
    → has_char b'/' part ≡ false
    → Plain part
plain part e f w = (
  λ p. absurd (ground (arith, string_eq.beq_iff part "")),
  λ p. absurd (ground (arith, string_eq.beq_iff part ".")),
  λ p. absurd (ground (arith, string_eq.beq_iff part "..")),
  w,
)

take_part-Plain :
    (done : List String) (part : String)
    → AllPlain done
    → has_char b'/' part ≡ false
    → AllPlain (take_part done part)
take_part-Plain done part h w = elim (Bool-cases (part =? "" || part =? ".")) [
  | inl e ↦ rw e h
  | inr e ↦ elim (Bool-cases (part =? "..")) [
    | inl f ↦ rw (e, f) (pop-Plain done h)
    | inr f ↦ rw (e, f) (plain part (e) f w, h)
  ]
]

pub clean_onto-Plain :
    (done parts : List String) → AllPlain done → AllWhole parts → AllPlain (clean_onto done parts)
unfolding clean_onto
clean_onto-Plain done [] h w = reverse_onto-Plain done [] h tt
clean_onto-Plain done (part ∷ parts) h w =
    clean_onto-Plain (take_part done part) parts (take_part-Plain done part h w.0) w.1

-- The parts of a plain path come back out of it.
split-plain : (x : String) → has_char b'/' x ≡ false → split x ≡ x ∷ []
unfolding split has_char
split-plain String.[] h = refl
split-plain (String.◌∷◌ c s) h = let ih = split-plain s (ground arith) in rw ih (ground arith)

split-append :
    (x t : String) → has_char b'/' x ≡ false → split (str_append x (String.◌∷◌ "/" t)) ≡ x ∷ split t
unfolding split has_char
split-append String.[] t h = rw nil-append refl
split-append (String.◌∷◌ c s) t h =
    let ih = split-append s t (ground arith) in rw (cons-append, ih) (ground arith)

-- Splitting a rooted path gives its parts, after the empty one before the first slash.
split_after :
    (x : String) (xs : List String) → AllPlain (x ∷ xs) → split (str_append x (rooted xs)) ≡ x ∷ xs
unfolding rooted
split_after x [] h = rw (append-nil x) (split-plain x h.0.3)
split_after x (y ∷ ys) h =
    split-append x (str_append y (rooted ys)) h.0.3 ∙ ap (λ ps. x ∷ ps) (split_after y ys h.1)

split-rooted :
    (x : String) (xs : List String) → AllPlain (x ∷ xs) → split (rooted (x ∷ xs)) ≡ "" ∷ x ∷ xs
unfolding rooted split
split-rooted x xs h = ap (λ ps. "" ∷ ps) (split_after x xs h)

-- The same with a slash at the end.
split_after_end :
    (x : String) (xs : List String)
    → AllPlain (x ∷ xs)
    → split (str_append x (str_append (rooted xs) "/")) ≡ x ∷ (xs ++ "" ∷ [])
unfolding rooted
split_after_end x [] h = unfold split in rw nil-append (split-append x "" h.0.3)
split_after_end x (y ∷ ys) h =
    rw (cons-append, append_assoc)
      (split-append x (str_append y (str_append (rooted ys) "/")) h.0.3)
    ∙ ap (λ ps. x ∷ ps) (split_after_end y ys h.1)

split-rooted_end :
    (x : String) (xs : List String)
    → AllPlain (x ∷ xs)
    → split (str_append (rooted (x ∷ xs)) "/") ≡ "" ∷ x ∷ (xs ++ "" ∷ [])
unfolding rooted split
split-rooted_end x xs h =
    rw (cons-append, append_assoc) (ap (λ ps. "" ∷ ps) (split_after_end x xs h))

take_part-plain : (done : List String) (x : String) → Plain x → take_part done x ≡ x ∷ done
take_part-plain done x (a, b, c, w) =
    ground (arith, string_eq.beq_iff x "", string_eq.beq_iff x ".", string_eq.beq_iff x "..")

clean_onto-plain : (done xs : List String) → AllPlain xs → clean_onto done xs ≡ reverse_onto done xs
unfolding clean_onto
clean_onto-plain done [] h = refl
clean_onto-plain done (x ∷ xs) h =
    rw (take_part-plain done x h.0) (clean_onto-plain (x ∷ done) xs h.1)

clean_onto-end : (done xs : List String) → clean_onto done (xs ++ "" ∷ []) ≡ clean_onto done xs
unfolding clean_onto
clean_onto-end done [] = refl
clean_onto-end done (x ∷ xs) = clean_onto-end (take_part done x) xs

not_slash : (c : Char) (u : String) → is_empty u ≡ false → (String.◌∷◌ c u =? "/") ≡ false
not_slash c String.[] h = absurd (cc)
not_slash c (String.◌∷◌ d u) h = beq_ne _ _ (λ (e : String.◌∷◌ c (String.◌∷◌ d u) ≡ "/"). cc)

abbrev head_code : String → ℕ
head_code String.[] = 0
head_code (String.◌∷◌ c s) = code c

other_char : (c : Char) (s : String) → (code c == b'/') ≡ false → (String.◌∷◌ c s =? "/") ≡ false
other_char c s h = beq_ne _ _ (λ e. let same = ap head_code e in absurd (ground arith))

is_empty-append : (s t : String) → is_empty t ≡ false → is_empty (str_append s t) ≡ false
is_empty-append String.[] t h = rw nil-append h
is_empty-append (String.◌∷◌ c s) t h = rw cons-append refl

has_suffix-append :
    (s t : String) → is_empty t ≡ false → has_suffix (str_append s t) "/" ≡ has_suffix t "/"
unfolding has_suffix
has_suffix-append String.[] t h = rw nil-append refl
has_suffix-append (String.◌∷◌ c s) t h =
    rw (cons-append, not_slash c (str_append s t) (is_empty-append s t h)) (has_suffix-append s t h)

whole_end : (x : String) → has_char b'/' x ≡ false → has_suffix x "/" ≡ false
unfolding has_suffix has_char
whole_end String.[] h = refl
whole_end (String.◌∷◌ c s) h = rw (other_char c s (ground arith)) (whole_end s (ground arith))

nonempty : (x : String) → x ≢ "" → is_empty x ≡ false
nonempty String.[] h = absurd (h refl)
nonempty (String.◌∷◌ c s) h = refl

rooted_end :
    (x : String) (xs : List String) → AllPlain (x ∷ xs) → has_suffix (rooted (x ∷ xs)) "/" ≡ false
unfolding has_suffix rooted
rooted_end x [] h = rw (append-nil x, not_slash "/" x (nonempty x h.0.0)) (whole_end x h.0.3)
rooted_end x (y ∷ ys) h =
    let more : is_empty (rooted (y ∷ ys)) ≡ false = refl in
    rw
      (
        not_slash "/" (str_append x (rooted (y ∷ ys))) (is_empty-append x (rooted (y ∷ ys)) more),
        has_suffix-append x (rooted (y ∷ ys)) more,
      )
      (rooted_end y ys h.1)

rooted-longer :
    (x : String) (xs : List String) → AllPlain (x ∷ xs) → (rooted (x ∷ xs) =? "/") ≡ false
unfolding rooted
rooted-longer x [] h = rw (append-nil x) (not_slash "/" x (nonempty x h.0.0))
rooted-longer x (y ∷ ys) h =
    not_slash "/" (str_append x (rooted (y ∷ ys))) (is_empty-append x (rooted (y ∷ ys)) refl)

-- The paths that `pathClean` makes: the root, and the paths of plain parts, each after a slash,
-- with or without a slash at the end.
pub data Cleaned (p : String) : Type 0 where
  root : p ≡ "/" → Cleaned p
  to_file : (x : String) (xs : List String) → AllPlain (x ∷ xs) → p ≡ rooted (x ∷ xs) → Cleaned p
  to_dir :
      (x : String) (xs : List String)
      → AllPlain (x ∷ xs)
      → p ≡ str_append (rooted (x ∷ xs)) "/"
      → Cleaned p

clean-Cleaned :
    (p : String) (parts : List String) → AllPlain parts → Cleaned (with_end p (root_or parts))
clean-Cleaned p [] h = root refl
clean-Cleaned p (x ∷ xs) h = elim (Bool-cases (has_suffix p "/")) [
  | inl e ↦ to_dir x xs h (rw (rooted-longer x xs h, e) refl)
  | inr e ↦ to_file x xs h (rw (rooted-longer x xs h, e) refl)
]

path_clean-Cleaned : (p : String) → Cleaned (path_clean p)
unfolding path_clean
path_clean-Cleaned p =
    let parts = split (with_root p) in
    clean-Cleaned (with_root p) (clean_parts parts)
      (clean_onto-Plain [] parts tt (split-Whole (with_root p)))

clean_same :
    (p : String) (parts : List String)
    → has_prefix p "/" ≡ true
    → clean_parts (split p) ≡ parts
    → with_end p (root_or parts) ≡ p
    → path_clean p ≡ p
unfolding path_clean
clean_same p parts r e k = rw (r, e) k

rooted-prefix : (x : String) (xs : List String) → has_prefix (rooted (x ∷ xs)) "/" ≡ true
unfolding rooted has_prefix
rooted-prefix x xs = refl

Cleaned-path_clean : (p : String) → Cleaned p → path_clean p ≡ p
Cleaned-path_clean p (root e) =
    rw e (unfold path_clean split clean_onto clean_parts has_prefix has_suffix in refl)
Cleaned-path_clean p (to_file x xs h e) =
    let q = rooted (x ∷ xs) in
    let parts : clean_parts (split q) ≡ x ∷ xs =
      rw (split-rooted x xs h) (unfold clean_parts clean_onto in clean_onto-plain [] (x ∷ xs) h) in
    let same : with_end q (rooted (x ∷ xs)) ≡ q = ground (arith, rooted_end x xs h) in
    rw e (clean_same q (x ∷ xs) (rooted-prefix x xs) parts same)
Cleaned-path_clean p (to_dir x xs h e) =
    let q = str_append (rooted (x ∷ xs)) "/" in
    let parts : clean_parts (split q) ≡ x ∷ xs = rw (split-rooted_end x xs h) (
      unfold clean_parts clean_onto in
      (clean_onto-end [] (x ∷ xs) ∙ clean_onto-plain [] (x ∷ xs) h)) in
    let ends : has_suffix q "/" ≡ true =
      has_suffix-append (rooted (x ∷ xs)) "/" refl ∙ (unfold has_suffix in refl) in
    let same : with_end q (rooted (x ∷ xs)) ≡ q = rw (ends, rooted-longer x xs h) refl in
    let starts : has_prefix q "/" ≡ true = unfold rooted has_prefix in rw cons-append refl in
    rw e (clean_same q (x ∷ xs) starts parts same)

-- `pathClean` leaves a path alone exactly when it is the root, or consists of parts that are
-- neither empty nor `.` nor `..` and hold no slash, each after a slash, with or without a slash at
-- the end.
pub path_clean_iff : (p : String) → (path_clean p ≡ p) ↔ Cleaned p
path_clean_iff p = (λ e. rw (← e) (path_clean-Cleaned p), Cleaned-path_clean p)

-- What `pathClean` returns it leaves alone.
pub path_clean_idem : (p : String) → path_clean (path_clean p) ≡ path_clean p
path_clean_idem p = Cleaned-path_clean (path_clean p) (path_clean-Cleaned p)
