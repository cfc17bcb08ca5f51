-- ===== src/Http/Xfcc.antt =====
-- proxy/xfcc.go, the header X-Forwarded-Client-Cert, and `reverseProxyDirector` of
-- proxy/backend-http.go, which sets it.
use Prim.Native.Char.{Char, code}
use Prim.Native.String.{String, ◌++◌ as str_append}
use rp.Prelude.{
  ℕ, Bool, false, not, ◌&&◌, ◌||◌, Option, none, some, List, [], ◌∷◌, ◌++◌, map, if◌then◌else◌,
  ◌==◌,
}
use rp.Prelude.Text.{string_eq}
use rp.Prelude.Map.{Map, insert, delete}
use rp.Prelude.Words.{is_empty, lower_is}
use rp.Http.Paths.{has_char}
use rp.Routing.{is_nil}

-- `strings.ReplaceAll(s, c, "\\" + c)` for one character.
unfoldable pub escape_char : ℕ → String → String
escape_char n String.[] = ""
escape_char n (String.◌∷◌ c s) =
    let rest = escape_char n s in
    if code c == n then String.◌∷◌ "\\" (String.◌∷◌ c rest) else String.◌∷◌ c rest

abbrev pub is_special : String → Bool
is_special s = has_char b',' s || has_char b';' s || has_char b'=' s

unfoldable pub encode_xfcc : String → String
unfolding escape_char
encode_xfcc s =
    let escaped = escape_char b'"' (escape_char b'\\' s) in
    if is_special escaped then str_append (String.◌∷◌ "\"" escaped) "\"" else escaped

abbrev pub push : String → Char → String
push s c = str_append s (String.◌∷◌ c "")

-- The loop over the runes of a subject, with the escape flag and the part so far.
unfoldable pub subject_parts : Bool → String → String → List String
subject_parts esc part String.[] = if is_empty part then [] else part ∷ []
subject_parts esc part (String.◌∷◌ c s) =
    let next = subject_parts false "" s in
    let more = subject_parts (not esc && code c == b'\\') (push part c) s in
    if code c == b',' && not esc then part ∷ next else more

-- `strings.Join(parts, sep)`
unfoldable pub join : String → List String → String
join sep [] = ""
join sep (part ∷ parts) =
    let rest = join sep parts in
    if is_nil parts then part else str_append part (str_append sep rest)

unfoldable pub encode_xfcc_subject : String → String
unfolding subject_parts join encode_xfcc
encode_xfcc_subject input = encode_xfcc (String.◌∷◌ "/" (join "/" (subject_parts false "" input)))

-- What the header tells of a client's certificate: its PEM text and those of the verified chains,
-- the URIs and DNS names, each through `url.QueryEscape`, the hash in hexadecimal digits, and the
-- subject.
pub record PeerTexts : Type 0 where
  pub cert : String
  pub chains : List String
  pub hash : String
  pub subject : String
  pub uris : List String
  pub dns_names : List String

abbrev pub labelled : String → String → String
labelled label s = str_append label (encode_xfcc s)

unfoldable pub field : PeerTexts → String → List String
unfolding encode_xfcc_subject
field p f =
    if lower_is f "cert"
    then labelled "Cert=" p.cert ∷ []
    else if lower_is f "chain"
    then map (labelled "Chain=") p.chains
    else if lower_is f "hash"
    then labelled "Hash=" p.hash ∷ []
    else if lower_is f "subject"
    then str_append "Subject=" (encode_xfcc_subject p.subject) ∷ []
    else if lower_is f "uri"
    then map (labelled "URI=") p.uris
    else if lower_is f "dns"
    then map (labelled "DNS=") p.dns_names
    else []

unfoldable pub fields : PeerTexts → List String → List String
unfolding field
fields p [] = []
fields p (f ∷ which) = field p f ++ fields p which

abbrev pub Headers : Type 0
Headers = Map String String

unfoldable pub add_xfcc_header : Option PeerTexts → List String → Headers → Headers
unfolding fields join
add_xfcc_header none which h = h
add_xfcc_header (some p) which h = insert "X-Forwarded-Client-Cert" (join ";" (fields p which)) h

-- `which` is the backend's `AddClientCertHeader`, empty without a `ClientAuth`. The peer is `none`
-- where the client has shown no certificate.
unfoldable pub reverse_proxy_director : Option PeerTexts → List String → Headers → Headers
unfolding add_xfcc_header
reverse_proxy_director peer which h =
    let clean = delete "X-Forwarded-Client-Cert" (delete "X-Forwarded-For" h) in
    if is_nil which then clean else add_xfcc_header peer which clean
