-- ===== src/Http/Header.antt =====
-- Reading the values of the header X-Forwarded-Client-Cert back.
use Prim.Native.Char.{Char, code}
use Prim.Native.String.{String, ◌++◌ as str_append}
use text.Mathlib.TextLemmas.{nil-append, cons-append, append_assoc}
use rp.Prelude.{
  ◌≡◌, refl, ap, ◌∙◌, inl, inr, Bool, true, false, ◌||◌, Option, none, some, List, if◌then◌else◌,
  ◌==◌, Bool-cases, arith,
}
use mathlib.Core.Path.{subst}
use rp.Prelude.Text.{string_eq, beq_refl}
use rp.Prelude.Map.{lookup, delete, lookup-insert, lookup-delete}
use rp.Routing.{is_nil}
use rp.Http.Paths.{has_char}
use rp.Http.Xfcc.{
  escape_char, is_special, encode_xfcc, PeerTexts, fields, join, Headers, add_xfcc_header,
  reverse_proxy_director,
}

-- What ends a value: an unescaped quote one in quotes, a separator of the header any other one.
abbrev ends : Bool → Char → Bool
ends true c = code c == b'"'
ends false c = code c == b',' || code c == b';' || code c == b'='

abbrev push_front : Char → String × String → String × String
push_front c r = (String.◌∷◌ c r.0, r.1)

-- A reader of a value, in quotes or not, and after a backslash or not: the value and the rest of the
-- header. A backslash stands before a character that is meant, and the closing quote is not part of
-- the rest.
unfoldable pub scan : Bool → Bool → String → String × String
scan quoted escaped String.[] = ("", "")
scan quoted true (String.◌∷◌ c s) = let next = scan quoted false s in push_front c next
scan quoted false (String.◌∷◌ c s) =
    let next = scan quoted false s in
    let after = scan quoted true s in
    if code c == b'\\'
    then after
    else if ends quoted c
    then ("", if quoted then s else String.◌∷◌ c s)
    else push_front c next

-- The value at the front of a header, and what follows it.
unfoldable pub read_value : String → String × String
unfolding scan
read_value String.[] = ("", "")
read_value (String.◌∷◌ c s) =
    if code c == b'"' then scan true false s else scan false false (String.◌∷◌ c s)

abbrev both : String → String
both s = escape_char b'"' (escape_char b'\\' s)

abbrev special : Char → Bool
special c = code c == b'\\' || code c == b'"'

both-special :
    (c : Char) (s : String)
    → special c ≡ true
    → both (String.◌∷◌ c s) ≡ String.◌∷◌ "\\" (String.◌∷◌ c (both s))
unfolding escape_char
both-special c s h = elim (Bool-cases (code c == b'\\')) [
  | inl e ↦ rw e (ground (arith, e))
  | inr e ↦ rw e (ground (arith, e))
]

both-plain :
    (c : Char) (s : String) → special c ≡ false → both (String.◌∷◌ c s) ≡ String.◌∷◌ c (both s)
unfolding escape_char
both-plain c s h =
    let a : (code c == b'\\') ≡ false = ground arith in
    let b : (code c == b'"') ≡ false = ground arith in rw (a, b) refl

scan-skip :
    (q : Bool) (c : Char) (u : String)
    → scan q false (String.◌∷◌ "\\" (String.◌∷◌ c u)) ≡ push_front c (scan q false u)
unfolding scan
scan-skip q c u = refl

scan-plain :
    (q : Bool) (c : Char) (u : String)
    → (code c == b'\\') ≡ false
    → ends q c ≡ false
    → scan q false (String.◌∷◌ c u) ≡ push_front c (scan q false u)
unfolding scan
scan-plain q c u a b = rw (a, b) refl

-- A value that is not in quotes has no separator.
abbrev Fits : Bool → String → Type 0
Fits true s = Unit {0}
Fits false s = is_special (both s) ≡ false

Fits-plain :
    (q : Bool) (c : Char) (s : String)
    → special c ≡ false
    → Fits q (String.◌∷◌ c s)
    → (ends q c ≡ false) × Fits q s
unfolding has_char
Fits-plain true c s e f = (ground arith, tt)
Fits-plain false c s e f =
    let g : is_special (String.◌∷◌ c (both s)) ≡ false =
      subst (λ u. is_special u ≡ false) (both-plain c s e) f in
    (ground arith, ground arith)

Fits-special :
    (q : Bool) (c : Char) (s : String) → special c ≡ true → Fits q (String.◌∷◌ c s) → Fits q s
unfolding has_char
Fits-special true c s e f = tt
Fits-special false c s e f =
    let g : is_special (String.◌∷◌ "\\" (String.◌∷◌ c (both s))) ≡ false =
      subst (λ u. is_special u ≡ false) (both-special c s e) f in
    ground arith

scan-both :
    (q : Bool) (s u v : String)
    → Fits q s
    → scan q false u ≡ ("", v)
    → scan q false (str_append (both s) u) ≡ (s, v)
scan-both q String.[] u v f h = unfold escape_char in rw nil-append h
scan-both q (String.◌∷◌ c s) u v f h = elim (Bool-cases (special c)) [
  | inl e ↦
      rw (both-special c s e, cons-append, cons-append)
        (scan-skip q c (str_append (both s) u)
          ∙ ap (push_front c) (scan-both q s u v (Fits-special q c s e f) h))
  | inr e ↦
      let (g, fits) = Fits-plain q c s e f in
      rw (both-plain c s e, cons-append)
        (scan-plain q c (str_append (both s) u) (ground arith) g
          ∙ ap (push_front c) (scan-both q s u v fits h))
]

-- The end of the header, or a separator before another field.
abbrev pub at_end : String → Bool
at_end String.[] = true
at_end (String.◌∷◌ c s) = code c == b',' || code c == b';'

scan-at_end : (t : String) → at_end t ≡ true → scan false false t ≡ ("", t)
unfolding scan
scan-at_end String.[] h = refl
scan-at_end (String.◌∷◌ c s) h = ground arith

scan-quote : (t : String) → scan true false (String.◌∷◌ "\"" t) ≡ ("", t)
unfolding scan
scan-quote t = refl

read_value-at_end : (t : String) → at_end t ≡ true → read_value t ≡ scan false false t
unfolding read_value
read_value-at_end String.[] h = unfold scan in refl
read_value-at_end (String.◌∷◌ c s) h = let b : (code c == b'"') ≡ false = ground arith in rw b refl

-- What is escaped never starts with a quote.
read_value-both :
    (s t : String)
    → at_end t ≡ true
    → read_value (str_append (both s) t) ≡ scan false false (str_append (both s) t)
read_value-both String.[] t h = unfold escape_char in rw nil-append (read_value-at_end t h)
read_value-both (String.◌∷◌ c s) t h = elim (Bool-cases (special c)) [
  | inl e ↦ rw (both-special c s e, cons-append) (unfold read_value in refl)
  | inr e ↦
      let b : (code c == b'"') ≡ false = ground arith in
      rw (both-plain c s e, cons-append) (unfold read_value in rw b refl)
]

-- A value that is encoded and followed by the end of the header, a comma or a semicolon is read back
-- as it was, and the reader stops exactly where it ends, whatever separators, quotes and backslashes
-- are in the value.
pub read_value-encode_xfcc :
    (s t : String) → at_end t ≡ true → read_value (str_append (encode_xfcc s) t) ≡ (s, t)
unfolding encode_xfcc
read_value-encode_xfcc s t h = elim (Bool-cases (is_special (both s))) [
  | inl e ↦
      rw (e, cons-append, cons-append, append_assoc, cons-append, nil-append)
        (unfold read_value in scan-both true s (String.◌∷◌ "\"" t) t tt (scan-quote t))
  | inr e ↦ rw e (read_value-both s t h ∙ scan-both false s t t e (scan-at_end t h))
]

-- The header that a backend's server gets is the proxy's own: it tells of the certificate that the
-- client has shown, if the backend wants it, and of no other, whatever the client has sent.
pub director-header :
    (peer : Option PeerTexts) (which : List String) (h : Headers)
    → lookup "X-Forwarded-Client-Cert" (reverse_proxy_director peer which h) ≡ (
        if is_nil which
        then none
        else elim peer [ none ↦ none | some p ↦ some (join ";" (fields p which)) ])
unfolding reverse_proxy_director add_xfcc_header
director-header none which h = elim (Bool-cases (is_nil which)) [
  | inl e ↦ rw e (gone h)
  | inr e ↦ rw e (gone h)
]
  where
    gone :
        (h : Headers)
        → lookup "X-Forwarded-Client-Cert"
            (delete "X-Forwarded-Client-Cert" (delete "X-Forwarded-For" h))
          ≡ none
    gone h = ground (
      arith,
      lookup-delete "X-Forwarded-Client-Cert" "X-Forwarded-Client-Cert"
          (delete "X-Forwarded-For" h),
      beq_refl {A = String} "X-Forwarded-Client-Cert",
    )
director-header (some p) which h = elim (Bool-cases (is_nil which)) [
  | inl e ↦ rw e (
      ground (
        arith,
        lookup-delete "X-Forwarded-Client-Cert" "X-Forwarded-Client-Cert"
            (delete "X-Forwarded-For" h),
        beq_refl {A = String} "X-Forwarded-Client-Cert",
      ))
  | inr e ↦ rw e (
      ground (
        arith,
        lookup-insert "X-Forwarded-Client-Cert" "X-Forwarded-Client-Cert"
            (join ";" (fields p which))
            (delete "X-Forwarded-Client-Cert" (delete "X-Forwarded-For" h)),
        beq_refl {A = String} "X-Forwarded-Client-Cert",
      ))
]
