-- ===== src/Backend/Access.antt =====
-- Who may use a backend: `authorize` and `checkIP` of proxy/backend.go.
use Prim.Native.String.{String, ◌++◌ as str_append}
use rp.Prelude.{
  ◌≡◌, refl, ap, ◌∙◌, ◌↔◌, ◌⊎◌, inl, inr, Bool, true, false, not, ◌&&◌, ◌||◌, Option, none, some,
  List, [], ◌∷◌, ◌++◌, map, if◌then◌else◌, Bool-cases, Option-cases, arith,
}
use rp.Prelude.Call.{Call, ok, err, panic}
use rp.Prelude.Text.{string_eq, ◌=?◌, contains, IsIn, here, there, IsIn-contains, contains-IsIn}
use rp.Backend.{
  Backend, Certificate, Error, access_denied, err_access_denied, no_ip_address, Ip, IpNet,
  net_contains, Addr, tcp_addr, udp_addr, other_addr,
}

-- `for _, v := range names { if slices.Contains(acl, prefix+v) { return nil } }`
unfoldable pub any_listed : List String → String → List String → Bool
any_listed acl prefix [] = false
any_listed acl prefix (v ∷ names) =
    contains acl (str_append prefix v) || any_listed acl prefix names

unfoldable pub subject_listed : List String → String → Bool
subject_listed acl subject =
    not (subject =? "") && (contains acl subject || contains acl (str_append "SUBJECT:" subject))

unfoldable pub cert_listed : List String → Certificate → Bool
unfolding subject_listed
cert_listed acl cert =
    subject_listed acl cert.subject
    || any_listed acl "DNS:" cert.dns_names
    || any_listed acl "EMAIL:" cert.email_addresses
    || any_listed acl "URI:" cert.uris

abbrev pub acl_of : Backend → Option (List String)
acl_of be = elim be.client_auth [ none ↦ none | some auth ↦ auth.acl ]

-- The certificate is a pointer, and may be nil.
unfoldable pub authorize : Backend → Option Certificate → Call Error (Unit {0})
authorize be cert = elim (acl_of be) [
  | none ↦ ok tt
  | some acl ↦ elim cert [
    | none ↦ panic
    | some c ↦ if cert_listed acl c then ok tt else err access_denied
  ]
]

abbrev pub addr_ip : Addr → Option Ip
addr_ip (tcp_addr ip) = some ip
addr_ip (udp_addr ip) = some ip
addr_ip other_addr = none

unfoldable pub any_contains : List IpNet → Ip → Bool
any_contains [] ip = false
any_contains (n ∷ ns) ip = net_contains n ip || any_contains ns ip

abbrev pub denied : Option (List IpNet) → Ip → Bool
denied none ip = false
denied (some nets) ip = any_contains nets ip

abbrev pub allowed : Option (List IpNet) → Ip → Bool
allowed none ip = true
allowed (some nets) ip = any_contains nets ip

unfoldable pub check_ip : Backend → Addr → Call Error (Unit {0})
check_ip be addr = elim (addr_ip addr) [
  | none ↦ err no_ip_address
  | some ip ↦
      if denied be.deny_ips ip
      then err err_access_denied
      else if allowed be.allow_ips ip
      then ok tt
      else err err_access_denied
]

-- The names under which an access list can give a certificate access.
abbrev pub subject_names : String → List String
subject_names subject = if subject =? "" then [] else subject ∷ str_append "SUBJECT:" subject ∷ []

abbrev pub identities : Certificate → List String
identities cert =
    subject_names cert.subject
    ++ map (str_append "DNS:") cert.dns_names
    ++ map (str_append "EMAIL:") cert.email_addresses
    ++ map (str_append "URI:") cert.uris

abbrev pub Shared : List String → List String → Type 0
Shared acl names = (s : String) × IsIn s acl × IsIn s names

any_shared : List String → List String → Bool
any_shared acl [] = false
any_shared acl (n ∷ names) = contains acl n || any_shared acl names

any_shared-append :
    (acl xs ys : List String) → any_shared acl (xs ++ ys) ≡ (any_shared acl xs || any_shared acl ys)
unfolding any_shared
any_shared-append acl [] ys = refl
any_shared-append acl (x ∷ xs) ys = ground (arith, any_shared-append acl xs ys)

any_listed-shared :
    (acl : List String) (prefix : String) (names : List String)
    → any_listed acl prefix names ≡ any_shared acl (map (str_append prefix) names)
unfolding any_listed any_shared
any_listed-shared acl prefix [] = refl
any_listed-shared acl prefix (n ∷ names) = rw (any_listed-shared acl prefix names)

subject_listed-shared :
    (acl : List String) (subject : String)
    → subject_listed acl subject ≡ any_shared acl (subject_names subject)
unfolding subject_listed any_shared
subject_listed-shared acl subject = ground arith

cert_listed-shared :
    (acl : List String) (c : Certificate) → cert_listed acl c ≡ any_shared acl (identities c)
unfolding cert_listed
cert_listed-shared acl c =
    let names = subject_names c.subject in
    let dns = map (str_append "DNS:") c.dns_names in
    let emails = map (str_append "EMAIL:") c.email_addresses in
    let uris = map (str_append "URI:") c.uris in
    ground (
      arith,
      any_shared-append acl ((names ++ dns) ++ emails) uris,
      any_shared-append acl (names ++ dns) emails,
      any_shared-append acl names dns,
      subject_listed-shared acl c.subject,
      any_listed-shared acl "DNS:" c.dns_names,
      any_listed-shared acl "EMAIL:" c.email_addresses,
      any_listed-shared acl "URI:" c.uris,
    )

any_shared-Shared : (acl names : List String) → any_shared acl names ≡ true → Shared acl names
unfolding any_shared
any_shared-Shared acl [] h = absurd (ground arith)
any_shared-Shared acl (n ∷ names) h = elim (Bool-cases (contains acl n)) [
  | inl p ↦ (n, IsIn-contains acl n p, here refl)
  | inr p ↦
      let (s, listed, held) = any_shared-Shared acl names (ground arith) in (s, listed, there held)
]

Shared-any_shared :
    (acl : List String) (s : String) {names : List String}
    → IsIn s acl
    → IsIn s names
    → any_shared acl names ≡ true
unfolding any_shared
Shared-any_shared acl s i (here {x} p) = ground (arith, contains-IsIn s i, p)
Shared-any_shared acl s i (there {xs = rest} j) = ground (arith, Shared-any_shared acl s i j)

-- Where the backend has an access list, a certificate is authorized exactly when the list holds
-- one of its identities: its subject, alone or with the prefix `SUBJECT:`, unless that is
-- empty, or one of its DNS names, email addresses and URIs with the prefix of its kind.
pub authorize_iff :
    (be : Backend) (acl : List String) (c : Certificate)
    → acl_of be ≡ some acl
    → (authorize be (some c) ≡ ok tt) ↔ Shared acl (identities c)
unfolding authorize
authorize_iff be acl c e = (
  λ h. any_shared-Shared acl (identities c) (ground (arith, cert_listed-shared acl c)),
  λ (s, i, j).
      let yes_listed = cert_listed-shared acl c ∙ Shared-any_shared acl s i j in ground arith,
)

abbrev Covered : List IpNet → Ip → Type 0
Covered nets ip = (n : IpNet) × IsIn n nets × (net_contains n ip ≡ true)

any_contains-Covered : (nets : List IpNet) (ip : Ip) → any_contains nets ip ≡ true → Covered nets ip
unfolding any_contains
any_contains-Covered [] ip h = absurd (ground arith)
any_contains-Covered (n ∷ nets) ip h = elim (Bool-cases (net_contains n ip)) [
  | inl p ↦ (n, here refl, p)
  | inr p ↦ let (m, held, has) = any_contains-Covered nets ip (ground arith) in (m, there held, has)
]

Covered-any_contains :
    (ip : Ip) (n : IpNet) {nets : List IpNet}
    → net_contains n ip ≡ true
    → IsIn n nets
    → any_contains nets ip ≡ true
unfolding any_contains
Covered-any_contains ip n h (here {x} {xs} p) =
    let e : net_contains x ip ≡ true = ap (λ m. net_contains m ip) p ∙ h in ground arith
Covered-any_contains ip n h (there {x} i) = ground (arith, Covered-any_contains ip n h i)

abbrev pub CoveredBy : Option (List IpNet) → Ip → Type 0
CoveredBy none ip = ⊥
CoveredBy (some nets) ip = Covered nets ip

denied-CoveredBy :
    (nets : Option (List IpNet)) (ip : Ip) → denied nets ip ≡ false → ¬ CoveredBy nets ip
denied-CoveredBy none ip h = λ c. c
denied-CoveredBy (some nets) ip h = λ (n, held, has). cc (Covered-any_contains ip n has held)

not-denied : (nets : Option (List IpNet)) (ip : Ip) → ¬ CoveredBy nets ip → denied nets ip ≡ false
not-denied none ip h = refl
not-denied (some nets) ip h = elim (Bool-cases (any_contains nets ip)) [
  | inl p ↦ absurd (h (any_contains-Covered nets ip p))
  | inr p ↦ p
]

allowed-CoveredBy :
    (nets : Option (List IpNet)) (ip : Ip)
    → allowed nets ip ≡ true
    → (nets ≡ none) ⊎ CoveredBy nets ip
allowed-CoveredBy none ip h = inl refl
allowed-CoveredBy (some nets) ip h = inr (any_contains-Covered nets ip h)

CoveredBy-allowed :
    (nets : Option (List IpNet)) (ip : Ip)
    → (nets ≡ none) ⊎ CoveredBy nets ip
    → allowed nets ip ≡ true
CoveredBy-allowed none ip h = refl
CoveredBy-allowed (some nets) ip (inl e) = absurd (cc)
CoveredBy-allowed (some nets) ip (inr (n, held, has)) = Covered-any_contains ip n has held

abbrev MayConnect : Backend → Addr → Type 0
MayConnect be addr =
    (ip : Ip) × (addr_ip addr ≡ some ip)
    × ¬ CoveredBy be.deny_ips ip
    × ((be.allow_ips ≡ none) ⊎ CoveredBy be.allow_ips ip)

ip_allowed : Backend → Ip → Bool
ip_allowed be ip = not (denied be.deny_ips ip) && allowed be.allow_ips ip

check_ip-allowed :
    (be : Backend) (addr : Addr) (ip : Ip)
    → addr_ip addr ≡ some ip
    → check_ip be addr ≡ (if ip_allowed be ip then ok tt else err err_access_denied)
unfolding check_ip ip_allowed
check_ip-allowed be addr ip e = ground arith

accepted : (be : Backend) (addr : Addr) → check_ip be addr ≡ ok tt → MayConnect be addr
accepted be addr h = elim (Option-cases (addr_ip addr)) [
  | inl e ↦ absurd (unfold check_ip in ground arith)
  | inr (ip, e) ↦
      let f = check_ip-allowed be addr ip e in
      (
        ip,
        e,
        denied-CoveredBy be.deny_ips ip (unfold ip_allowed in ground arith),
        allowed-CoveredBy be.allow_ips ip (unfold ip_allowed in ground arith),
      )
]

accepts : (be : Backend) (addr : Addr) → MayConnect be addr → check_ip be addr ≡ ok tt
accepts be addr (ip, e, open_to, listed) =
    let d = not-denied be.deny_ips ip open_to in
    let a = CoveredBy-allowed be.allow_ips ip listed in
    check_ip-allowed be addr ip e ∙ (unfold ip_allowed in ground arith)

-- A client may connect exactly when its address is an IP address, no network of the deny list
-- covers it, and there is no allow list or some network of it covers the address.
pub check_ip_iff :
    (be : Backend) (addr : Addr)
    → (check_ip be addr ≡ ok tt) ↔ (
        (ip : Ip) × (addr_ip addr ≡ some ip)
        × ¬ CoveredBy be.deny_ips ip
        × ((be.allow_ips ≡ none) ⊎ CoveredBy be.allow_ips ip))
check_ip_iff be addr = (accepted be addr, accepts be addr)
