-- ===== src/Examples/Laws.antt =====
-- The sample packages behave as documented.
use lcp_go.Common.{
  ◌≡◌, refl, ap, Bytes, length, take, replicate, length-append, length-take, get_or, arith,
  take-append_self, ◌++◌, subst,
}
use lcp_go.Types.{Height}
use lcp_go.Packages.Documented.{KvStoreLaws, IbcLaws, EthereumLaws}
use lcp_go.Examples.Sample.{kv, ibc, eth, to_address, height_text}

pub kv_laws : KvStoreLaws kv
kv_laws = record {
  get-set = λ s k v j. refl;
  get-delete = λ s k j. refl;
  has-get = λ s k. refl;
  prefix-set = λ s k v. refl;
}

height_text_injective : (a b : Height) → height_text a ≡ height_text b → a ≡ b
height_text_injective a b e =
    ground (arith, ap (λ (l : Bytes). get_or l 0 0) e, ap (λ (l : Bytes). get_or l 2 0) e)

pub ibc_laws : IbcLaws ibc
ibc_laws = record {
  height_lt_lem = λ a b. refl;
  height_eq_lem = λ a b. refl;
  height_is_zero_lem = λ a. refl;
  height_string_injective = height_text_injective;
  height_string_no_slash = λ a. (omega arith, (omega arith, (omega arith, tt)));
  parse-height_string = λ a. ground arith;
  client_state_key_lem = refl;
  consensus_state_key_lem = λ h. refl;
  unmarshal-marshal_consensus_state = λ c. refl;
  length-uint64_to_big_endian = λ n. refl;
  big_endian-uint64_to_big_endian = λ n h. refl;
}

length-to_address : (b : Bytes) → length (to_address b) ≡ 20
length-to_address b =
    omega (arith, length-take 20 (b ++ replicate 20 0), length-append b (replicate 20 0))

pub eth_laws : EthereumLaws eth
eth_laws = record {
  length-bytes_to_address = length-to_address;
  bytes_to_address_same =
      λ b h. subst (λ n. take n (b ++ replicate 20 0) ≡ b) h (take-append_self b (replicate 20 0));
  length-pubkey_to_address = length-to_address;
  address_hex_injective = λ a b la lb e. e;
}
