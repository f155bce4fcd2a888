-- ===== src/Rhs/Ip/Safe.antt =====
-- engine/src/rhs_types/ip.rs: the spans of the errors of networks.
use wirefilter.Prelude.{
  ◌≡◌, refl, true, Option, none, some, [], ◌∷◌, ◌==◌, inl, inr, Bool-cases, arith,
}
use wirefilter.Lex.{Text}
use wirefilter.Lex.Run.{Run, Safe, bind-Safe, lift-Safe}
use wirefilter.Rhs.External.{External, CidrResult, has_slash}
use wirefilter.Value.{IpAddr}
use wirefilter.Rhs.Ip.{
  IpRange, match_addr_or_cidr, find_dots, behind_slash, explicit_range, addr_or_error, parse_addr,
  lex_ip_addr, cidr_or_error, range_or_cidr, lex_ip_range,
}

has_slash-behind_slash : (s : Text) → has_slash s ≡ true → (t : Text) × (behind_slash s ≡ some t)
unfolding behind_slash
has_slash-behind_slash [] h = cc
has_slash-behind_slash (c ∷ cs) h = elim (Bool-cases (c == b'/')) [
  | inl e ↦ rw e (cs, refl)
  | inr e ↦ rw (e, behind_slash) (has_slash-behind_slash cs (rw e at h))
]

-- No panic.
abbrev Calm : {A : Type 0} → Run A → Type 0
Calm r = Safe (λ a rest. Unit {0}) r

module _ (E : External) where
  parse_addr-Calm : (input rest : Text) → Calm (parse_addr E input rest)
  unfolding parse_addr
  parse_addr-Calm input rest = by_result (E.addr_from_str input)
    where
      by_result : (o : Option IpAddr) → Calm (addr_or_error E input rest o)
      by_result (some a) = tt
      by_result none = tt

  explicit_range-Calm :
      (chunk rest : Text) (a b : IpAddr) → Calm {A = IpRange E.Cidr} (explicit_range chunk rest a b)
  explicit_range-Calm chunk rest (IpAddr.v4 a) (IpAddr.v4 b) = ground arith
  explicit_range-Calm chunk rest (IpAddr.v6 a) (IpAddr.v6 b) = ground arith
  explicit_range-Calm chunk rest (IpAddr.v4 a) (IpAddr.v6 b) = tt
  explicit_range-Calm chunk rest (IpAddr.v6 a) (IpAddr.v4 b) = tt

  cidr_or_error-Calm :
      (chunk rest : Text) (r : CidrResult E.Cidr)
      → E.cidr_from_str chunk ≡ r
      → Calm (cidr_or_error E chunk rest r)
  cidr_or_error-Calm chunk rest (CidrResult.cidr c) e = tt
  cidr_or_error-Calm chunk rest CidrResult.addr_parse_error e = tt
  cidr_or_error-Calm chunk rest CidrResult.invalid_host_part e = tt
  cidr_or_error-Calm chunk rest CidrResult.network_length_parse_error e =
      let (t, p) = has_slash-behind_slash chunk (E.length_behind_slash chunk e) in rw p tt
  cidr_or_error-Calm chunk rest CidrResult.network_length_too_long_error e = tt

  pub lex_ip_addr-Safe : (input : Text) → Safe (λ a rest. Unit {0}) (lex_ip_addr E input)
  unfolding lex_ip_addr
  lex_ip_addr-Safe input =
      lift-Safe (λ a rest. Unit {0}) (match_addr_or_cidr input) _
        λ chunk rest. parse_addr-Calm chunk rest

  pub lex_ip_range-Safe : (input : Text) → Safe (λ a rest. Unit {0}) (lex_ip_range E input)
  unfolding lex_ip_range
  lex_ip_range-Safe input =
      lift-Safe (λ a rest. Unit {0}) (match_addr_or_cidr input) _
        λ chunk rest. by_dots chunk rest (find_dots chunk)
    where
      by_dots : (chunk rest : Text) (o : Option (Text × Text)) → Calm (range_or_cidr E chunk rest o)
      by_dots chunk rest (some (first, last)) =
          bind-Safe (λ a rest. Unit {0}) (λ a rest. Unit {0}) (parse_addr E first rest) _
            (parse_addr-Calm first rest)
            λ a _ _.
              bind-Safe (λ a rest. Unit {0}) (λ a rest. Unit {0}) (parse_addr E last rest) _
                (parse_addr-Calm last rest) λ b _ _. explicit_range-Calm chunk rest a b
      by_dots chunk rest none = cidr_or_error-Calm chunk rest (E.cidr_from_str chunk) refl
