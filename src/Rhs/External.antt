-- ===== src/Rhs/External.antt =====
-- What engine/src/rhs_types takes from elsewhere: addresses and networks, regular expressions,
-- wildcards and the searchers of engine/src/searcher.rs.
use wirefilter.Prelude.{ℕ, ◌≡◌, Bool, Option, List, ◌==◌, any}
use wirefilter.Lex.{Text}
use wirefilter.Rhs.Bytes.{Bytes}
use wirefilter.Value.{IpAddr}

-- `WildcardToken` of the wildcard crate.
pub data WildcardToken : Type 0 where
  metasymbol_any metasymbol_one : WildcardToken
  symbol : ℕ → WildcardToken

-- `IpCidr::from_str` of the cidr crate, with the kinds of its errors.
pub data CidrResult (C : Type 0) : Type 0 where
  cidr : C → CidrResult C
  addr_parse_error invalid_host_part network_length_parse_error network_length_too_long_error :
      CidrResult C

abbrev pub has_slash : Text → Bool
has_slash = any (λ c. c == b'/')

-- The two addresses of a network are of one family. A network's length is what stands behind a
-- slash, so only a text with one has a length that does not parse.
pub record External : Type 1 where
  pub Cidr : Type 0
  pub Regex : Type 0
  pub addr_from_str : Text → Option IpAddr
  pub cidr_from_str : Text → CidrResult Cidr
  pub is_v4 : Cidr → Bool
  pub first_address : Cidr → ℕ
  pub last_address : Cidr → ℕ
  pub lookup_regex : Text → Option Regex
  pub is_match : Regex → Bytes → Bool
  pub build_wildcard : Bool → Bytes → Option (List WildcardToken)
  pub wildcard_is_match : Bool → Bytes → Bytes → Bool
  pub memchr : ℕ → Bytes → Bool
  pub memmem : Bytes → Bytes → Bool
  pub length_behind_slash :
      (s : Text) → cidr_from_str s ≡ network_length_parse_error → has_slash s ≡ Bool.true
