-- ===== src/Backend.antt =====
-- proxy/backend.go and the types of proxy/config.go that it reads: a backend, its clients'
-- certificates, and the network addresses.
pub mod Access
pub mod Lifecycle
pub mod Draining
pub mod Shutdown
pub mod Dial
pub mod RoundRobin
pub mod Coverage
use Prim.Native.String.{String}
use rp.Prelude.{ℕ, ◌^◌, ◌/◌, ◌-◌, Bool, true, false, Option, none, some, List, [], ◌∷◌, ◌==◌, ◌&&◌}

pub data Mode : Type 0 where
  tcp tls tls_passthrough quic http https local console : Mode

-- The errors of this package's functions. The texts of the messages are left out.
pub data Error : Type 0 where
  access_denied err_access_denied no_ip_address unexpected_sni backend_shutdown : Error
  no_addresses certificate_required certificate_revoked bad_certificate : Error
  unrecognized_name : Error
  dial_failed : ℕ → Error

-- What the program reads of an `*x509.Certificate`, with the texts of `Subject` and `URIs`.
pub record Certificate : Type 0 where
  pub subject : String
  pub dns_names : List String
  pub email_addresses : List String
  pub uris : List String
  pub authority_key_id : String
  pub serial_number : ℕ
  pub ocsp_server : List String

-- A `net.IP`: 4 bytes, or 16 that are no IPv4-mapped address, as a number.
pub data Ip : Type 0 where
  v4 v6 : ℕ → Ip

-- A `net.IPNet` that `net.ParseCIDR` returns: its base address, and the length of its mask.
pub record IpNet : Type 0 where
  pub base : Ip
  pub ones : ℕ

abbrev pub net_contains : IpNet → Ip → Bool
net_contains n ip = same_prefix n.base ip
  where
    same_prefix : Ip → Ip → Bool
    same_prefix (v4 a) (v4 b) = a / 2 ^ (32 - n.ones) == b / 2 ^ (32 - n.ones)
    same_prefix (v6 a) (v6 b) = a / 2 ^ (128 - n.ones) == b / 2 ^ (128 - n.ones)
    same_prefix _ _ = false

pub data Addr : Type 0 where
  tcp_addr udp_addr : Ip → Addr
  other_addr : Addr

pub record ClientAuth : Type 0 where
  pub acl : Option (List String)

-- The configuration of a backend, as far as it decides who may connect and where requests go.
pub record Backend : Type 0 where
  pub name : ℕ
  pub mode : Mode
  pub server_names : List String
  pub alpn_protos : List String
  pub client_auth : Option ClientAuth
  pub deny_ips : Option (List IpNet)
  pub allow_ips : Option (List IpNet)
  pub shutdown : Bool
