-- ===== src/Rhs/Ip.antt =====
-- engine/src/rhs_types/ip.rs: addresses, and ranges of them.
pub mod Safe
use wirefilter.Prelude.{
  ℕ, ◌≤◌, Bool, true, false, ◌&&◌, ◌||◌, Option, none, some, List, [], ◌∷◌, ◌==◌, leb,
  if◌then◌else◌, inl, inr, Bool-cases, ◌≡◌, refl, arith, suc, length,
}
use wirefilter.Lex.{Text, codes, LexErrorKind, LexResult, ok, err, take_while}
use wirefilter.Lex.Run.{Run, lexed, failed, panicked, lift, ◌>>=◌, Ends, bind-Ends}
use wirefilter.Lex.Lengths.{take_while-Within, lift-Ends}
use wirefilter.Rhs.External.{External, CidrResult, has_slash}
use wirefilter.Value.{IpAddr}
use wirefilter.RangeSet.{RangeInclusive}
use wirefilter.Compare.{ExplicitIpRange}

abbrev pub is_address_char : ℕ → Bool
is_address_char c =
    leb b'0' c && leb c b'9'
    || leb b'a' c && leb c b'f'
    || leb b'A' c && leb c b'F'
    || c == b':'
    || c == b'.'
    || c == b'/'

unfoldable pub match_addr_or_cidr : Text → LexResult Text
match_addr_or_cidr input = take_while input (codes "IP address character") is_address_char

pub data IpRange (C : Type 0) : Type 0 where
  explicit : ExplicitIpRange → IpRange C
  cidr : C → IpRange C

-- `chunk.find("..")`: what stands before and behind.
abbrev pub find_dots : Text → Option (Text × Text)
find_dots [] = none
find_dots (c ∷ []) = none
find_dots (c ∷ d ∷ cs) = elim (c == b'.' && d == b'.') [
  | true ↦ some ([], cs)
  | false ↦ elim (find_dots (d ∷ cs)) [ none ↦ none | some p ↦ some (c ∷ p.0, p.1) ]
]

-- What stands before a slash, or all, and what stands behind it.
unfoldable pub before_slash : Text → Text
before_slash [] = []
before_slash (c ∷ cs) = if c == b'/' then [] else c ∷ before_slash cs

unfoldable pub behind_slash : Text → Option Text
behind_slash [] = none
behind_slash (c ∷ cs) = if c == b'/' then some cs else behind_slash cs

-- The two ends of an explicit range.
abbrev pub explicit_range : {C : Type 0} → Text → Text → IpAddr → IpAddr → Run (IpRange C)
explicit_range chunk rest (IpAddr.v4 a) (IpAddr.v4 b) =
    if leb a b
    then lexed (explicit (ExplicitIpRange.v4 (record { start = a; end = b })), rest)
    else failed LexErrorKind.incompatible_range_bounds chunk
explicit_range chunk rest (IpAddr.v6 a) (IpAddr.v6 b) =
    if leb a b
    then lexed (explicit (ExplicitIpRange.v6 (record { start = a; end = b })), rest)
    else failed LexErrorKind.incompatible_range_bounds chunk
explicit_range chunk rest _ _ = failed LexErrorKind.incompatible_range_bounds chunk

-- A slice past the end of the chunk is a panic.
abbrev pub length_span : {A : Type 0} → Option Text → Run A
length_span (some s) = failed (LexErrorKind.network s) s
length_span none = panicked

module _ (E : External) where
  abbrev pub addr_or_error : Text → Text → Option IpAddr → Run IpAddr
  addr_or_error input rest (some a) = lexed (a, rest)
  addr_or_error input rest none = failed (LexErrorKind.network input) input

  -- The rest is what follows the chunk.
  unfoldable pub parse_addr : Text → Text → Run IpAddr
  parse_addr input rest = addr_or_error input rest (E.addr_from_str input)

  -- `<IpAddr as Lex>::lex`
  unfoldable pub lex_ip_addr : Text → Run IpAddr
  unfolding parse_addr match_addr_or_cidr
  lex_ip_addr input = lift (match_addr_or_cidr input) >>= λ (chunk, rest). parse_addr chunk rest

  abbrev pub cidr_or_error : Text → Text → CidrResult E.Cidr → Run (IpRange E.Cidr)
  cidr_or_error chunk rest (CidrResult.cidr c) = lexed (cidr c, rest)
  cidr_or_error chunk rest CidrResult.addr_parse_error =
      failed (LexErrorKind.network chunk) (before_slash chunk)
  cidr_or_error chunk rest CidrResult.invalid_host_part =
      failed (LexErrorKind.network chunk) (before_slash chunk)
  cidr_or_error chunk rest CidrResult.network_length_parse_error = length_span (behind_slash chunk)
  cidr_or_error chunk rest CidrResult.network_length_too_long_error =
      failed (LexErrorKind.network chunk) chunk

  abbrev pub range_or_cidr : Text → Text → Option (Text × Text) → Run (IpRange E.Cidr)
  range_or_cidr chunk rest (some (first, last)) = parse_addr first rest >>= λ (a, _).
      parse_addr last rest >>= λ (b, _). explicit_range chunk rest a b
  range_or_cidr chunk rest none = cidr_or_error chunk rest (E.cidr_from_str chunk)

  -- `<IpRange as Lex>::lex`
  unfoldable pub lex_ip_range : Text → Run (IpRange E.Cidr)
  unfolding match_addr_or_cidr parse_addr before_slash behind_slash
  lex_ip_range input = lift (match_addr_or_cidr input) >>= λ (chunk, rest).
      range_or_cidr chunk rest (find_dots chunk)

  -- `From<IpRange> for ExplicitIpRange`
  abbrev pub explicit_of : IpRange E.Cidr → ExplicitIpRange
  explicit_of (explicit r) = r
  explicit_of (cidr c) =
      if E.is_v4 c
      then ExplicitIpRange.v4 (record { start = E.first_address c; end = E.last_address c })
      else ExplicitIpRange.v6 (record { start = E.first_address c; end = E.last_address c })

  parse_addr-Ends : (input rest : Text) (n : ℕ) → length rest ≤ n → Ends n (parse_addr input rest)
  unfolding parse_addr
  parse_addr-Ends input rest n h = by_result (E.addr_from_str input)
    where
      by_result : (o : Option IpAddr) → Ends n (addr_or_error input rest o)
      by_result (some a) = h
      by_result none = tt

  pub lex_ip_addr-Ends : (input : Text) (n : ℕ) → length input ≤ suc n → Ends n (lex_ip_addr input)
  unfolding lex_ip_addr match_addr_or_cidr
  lex_ip_addr-Ends input n h =
      bind-Ends (lift (match_addr_or_cidr input)) _ n n
        (lift-Ends (match_addr_or_cidr input) n (take_while-Within input _ _ n h))
        λ chunk rest k. parse_addr-Ends chunk rest n k

  pub lex_ip_range-Ends :
      (input : Text) (n : ℕ) → length input ≤ suc n → Ends n (lex_ip_range input)
  unfolding lex_ip_range match_addr_or_cidr
  lex_ip_range-Ends input n h =
      bind-Ends (lift (match_addr_or_cidr input)) _ n n
        (lift-Ends (match_addr_or_cidr input) n (take_while-Within input _ _ n h))
        λ chunk rest k. by_dots chunk rest (find_dots chunk) k
    where
      by_ends :
          (chunk rest : Text) (a b : IpAddr)
          → length rest ≤ n
          → Ends {A = IpRange E.Cidr} n (explicit_range chunk rest a b)
      by_ends chunk rest (IpAddr.v4 a) (IpAddr.v4 b) k = ground arith
      by_ends chunk rest (IpAddr.v6 a) (IpAddr.v6 b) k = ground arith
      by_ends chunk rest (IpAddr.v4 a) (IpAddr.v6 b) k = tt
      by_ends chunk rest (IpAddr.v6 a) (IpAddr.v4 b) k = tt

      by_span : (o : Option Text) → Ends {A = IpRange E.Cidr} n (length_span o)
      by_span (some s) = tt
      by_span none = tt

      by_cidr :
          (chunk rest : Text) (r : CidrResult E.Cidr)
          → length rest ≤ n
          → Ends n (cidr_or_error chunk rest r)
      by_cidr chunk rest (CidrResult.cidr c) k = k
      by_cidr chunk rest CidrResult.addr_parse_error k = tt
      by_cidr chunk rest CidrResult.invalid_host_part k = tt
      by_cidr chunk rest CidrResult.network_length_parse_error k = by_span (behind_slash chunk)
      by_cidr chunk rest CidrResult.network_length_too_long_error k = tt

      by_dots :
          (chunk rest : Text) (o : Option (Text × Text))
          → length rest ≤ n
          → Ends n (range_or_cidr chunk rest o)
      by_dots chunk rest (some (first, last)) k =
          bind-Ends (parse_addr first rest) _ n n (parse_addr-Ends first rest n k) λ a _ _.
            bind-Ends (parse_addr last rest) _ n n (parse_addr-Ends last rest n k)
              λ b _ _. by_ends chunk rest a b k
      by_dots chunk rest none k = by_cidr chunk rest (E.cidr_from_str chunk) k
