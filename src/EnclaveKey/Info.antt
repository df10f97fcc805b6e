-- ===== src/EnclaveKey/Info.antt =====
-- The record of an enclave key in the store: what a write under one key does to each read.
use lcp_go.Common.{
  ◌≡◌, ◌≢◌, ◌∙◌, refl, sym, ap, Bytes, Bool, false, Option, none, some, ◌++◌, length, take, drop,
  bytes_eq, bytes_eq_refl, bytes_eq-ne, bytes_eq_iff, not, ◌==◌, subst, if◌then◌else◌,
  length-append, take-append_self, drop-append_self, arith,
}
use lcp_go.Common.Int.{bits_64, bits_64-lt}
use lcp_go.Result.{
  Result, ok, err, panic, ◌>>=◌, ◌>>◌, reject_if, plain, operator_mismatch, expired_at_mismatch,
}
use lcp_go.GoTime.{Time, unix}
use lcp_go.Types.{Height, Address, ClientState, ConsensusState}
use lcp_go.Packages.{Packages}
use lcp_go.Packages.Documented.{KvStoreLaws, IbcLaws, EthereumLaws, is_some}
use lcp_go.Store.{
  set_client_state, set_consensus_state, get_consensus_state, get_processed_time,
  get_processed_height, processed_time_key, processed_height_key, decode_consensus_state,
  decode_processed_time, decode_processed_height,
}
use lcp_go.Store.Keys.{get-set_other, get-set_self}
use lcp_go.EnclaveKey.{
  EkInfo, enclave_key_path, contains, decode_ek_info, get_ek_info, require_ek, ensure_ek_info_match,
  set_ek_info, stored_bytes,
}

-- what `SetEKInfo` stands for
abbrev pub info_of : Address → Time → EkInfo
info_of operator expired_at = record { expired_at = bits_64 (unix expired_at); operator = operator }

-- `get_ek_info` as a function of the entry alone
abbrev pub read_entry : {S : Type 0} (p : Packages S) → Option Bytes → Result (Option EkInfo)
read_entry p none = ok none
read_entry p (some bz) = decode_ek_info p bz

module _ {S : Type 0} (p : Packages S) where
  read_entry_cases :
      (b : Bool) (o : Option Bytes)
      → b ≡ is_some o
      → (if not b then ok none else decode_ek_info p (stored_bytes o)) ≡ read_entry p o
  read_entry_cases b none e = rw e refl
  read_entry_cases b (some bz) e = rw e refl

  -- An entry of eight bytes and an address is read as the pair of them.
  read_entry-append :
      (el : EthereumLaws p.eth) (il : IbcLaws p.ibc) (operator : Address) (t : Time)
      → length operator ≡ 20
      → read_entry p (some (p.ibc.uint64_to_big_endian (bits_64 (unix t)) ++ operator))
        ≡ ok (some (info_of operator t))
  unfolding decode_ek_info
  read_entry-append el il operator t h =
      let n = bits_64 (unix t) in
      let word = p.ibc.uint64_to_big_endian n in
      let eight : length word ≡ 8 = il.length-uint64_to_big_endian n in
      let front : take 8 (word ++ operator) ≡ word =
        subst (λ k. take k (word ++ operator) ≡ word) eight (take-append_self word operator) in
      let back : drop 8 (word ++ operator) ≡ operator =
        subst (λ k. drop k (word ++ operator) ≡ operator) eight (drop-append_self word operator) in
      let long : length (word ++ operator) ≡ 28 =
        omega (arith, length-append word operator, eight, h) in
      rw (long, front, back)
        (rw
          (
            il.big_endian-uint64_to_big_endian n (bits_64-lt (unix t)),
            el.bytes_to_address_same operator h,
          )
          refl)

module _ {S : Type 0} (p : Packages S) (kl : KvStoreLaws p.kv) where
  pub get_ek_info-eq-read_entry :
      (s : S) (ek : Address)
      → get_ek_info p s ek ≡ read_entry p (p.kv.get s (enclave_key_path p ek))
  unfolding get_ek_info contains
  get_ek_info-eq-read_entry s ek = read_entry_cases p _ _ (kl.has-get s (enclave_key_path p ek))

  -- A write elsewhere leaves the record of an enclave key as it was.
  get_ek_info-set_other :
      (s : S) (k v : Bytes) (ek : Address)
      → bytes_eq k (enclave_key_path p ek) ≡ false
      → get_ek_info p (p.kv.set s k v) ek ≡ get_ek_info p s ek
  get_ek_info-set_other s k v ek h =
      get_ek_info-eq-read_entry (p.kv.set s k v) ek
      ∙ ap (read_entry p) (get-set_other p kl s k v _ h)
      ∙ sym (get_ek_info-eq-read_entry s ek)

module _ {S : Type 0} (p : Packages S) (kl : KvStoreLaws p.kv) (il : IbcLaws p.ibc)
    (el : EthereumLaws p.eth) where
  pub get_ek_info-set_ek_self :
      (s : S) (ek operator : Address) (t : Time)
      → length operator ≡ 20
      → get_ek_info p (set_ek_info p s ek operator t) ek ≡ ok (some (info_of operator t))
  unfolding set_ek_info
  get_ek_info-set_ek_self s ek operator t h =
      get_ek_info-eq-read_entry p kl _ ek
      ∙ ap (read_entry p) (get-set_self p kl s (enclave_key_path p ek) _)
      ∙ read_entry-append p el il operator t h

  enclave_key_path-ne :
      (a b : Address)
      → length a ≡ 20
      → length b ≡ 20
      → a ≢ b
      → bytes_eq (enclave_key_path p a) (enclave_key_path p b) ≡ false
  unfolding enclave_key_path bytes_eq
  enclave_key_path-ne a b la lb n = bytes_eq-ne _ _ (λ e. n (el.address_hex_injective a b la lb e))

  pub get_ek_info-set_ek_ne :
      (s : S) (a b operator : Address) (t : Time)
      → length a ≡ 20
      → length b ≡ 20
      → a ≢ b
      → get_ek_info p (set_ek_info p s a operator t) b ≡ get_ek_info p s b
  unfolding set_ek_info
  get_ek_info-set_ek_ne s a b operator t la lb n =
      get_ek_info-set_other p kl s _ _ b (enclave_key_path-ne a b la lb n)

module _ {S : Type 0} (p : Packages S) (kl : KvStoreLaws p.kv) (il : IbcLaws p.ibc) where
  pub get_ek_info-set_client :
      (s : S) (cs : ClientState) (ek : Address)
      → get_ek_info p (set_client_state p s cs) ek ≡ get_ek_info p s ek
  unfolding set_client_state enclave_key_path bytes_eq
  get_ek_info-set_client s cs ek =
      get_ek_info-set_other p kl s _ _ ek (rw il.client_state_key_lem refl)

  pub get_ek_info-set_consensus :
      (s : S) (c : ConsensusState) (h : Height) (ek : Address)
      → get_ek_info p (set_consensus_state p s c h) ek ≡ get_ek_info p s ek
  unfolding set_consensus_state enclave_key_path bytes_eq
  get_ek_info-set_consensus s c h ek =
      get_ek_info-set_other p kl s _ _ ek (rw (il.consensus_state_key_lem h) refl)

  -- The registration of a key leaves the rest of the store as it was.
  pub get_consensus-set_ek :
      (s : S) (ek operator : Address) (t : Time) (h : Height)
      → get_consensus_state p (set_ek_info p s ek operator t) h ≡ get_consensus_state p s h
  unfolding get_consensus_state set_ek_info enclave_key_path bytes_eq
  get_consensus-set_ek s ek operator t h =
      ap (decode_consensus_state p)
        (get-set_other p kl s _ _ _ (rw (il.consensus_state_key_lem h) refl))

  pub client-set_ek :
      (s : S) (ek operator : Address) (t : Time)
      → p.kv.get (set_ek_info p s ek operator t) p.ibc.client_state_key
        ≡ p.kv.get s p.ibc.client_state_key
  unfolding set_ek_info enclave_key_path bytes_eq
  client-set_ek s ek operator t = get-set_other p kl s _ _ _ (rw il.client_state_key_lem refl)

  pub get_processed_time-set_ek :
      (s : S) (ek operator : Address) (t : Time) (h : Height)
      → get_processed_time p (set_ek_info p s ek operator t) h ≡ get_processed_time p s h
  unfolding get_processed_time processed_time_key set_ek_info enclave_key_path bytes_eq
  get_processed_time-set_ek s ek operator t h =
      ap (decode_processed_time p)
        (get-set_other p kl s _ _ _ (rw (il.consensus_state_key_lem h) refl))

  pub get_processed_height-set_ek :
      (s : S) (ek operator : Address) (t : Time) (h : Height)
      → get_processed_height p (set_ek_info p s ek operator t) h ≡ get_processed_height p s h
  unfolding get_processed_height processed_height_key set_ek_info enclave_key_path bytes_eq
  get_processed_height-set_ek s ek operator t h =
      ap (decode_processed_height p)
        (get-set_other p kl s _ _ _ (rw (il.consensus_state_key_lem h) refl))

module _ {S : Type 0} (p : Packages S) where
  abbrev matched : Result (Option EkInfo) → Address → Time → Result (Unit {0})
  matched found operator t = do
    o ← found
    info ← require_ek p o
    reject_if (not (bytes_eq info.operator operator)) (plain operator_mismatch)
    reject_if (not (info.expired_at == bits_64 (unix t))) (plain expired_at_mismatch)
    ok tt

  -- A record matches exactly when its operator and its expiry are those given.
  match_of_info :
      (found : Result (Option EkInfo)) (operator : Address) (t : Time)
      → matched found operator t ≡ ok tt
      → found ≡ ok (some (info_of operator t))
  unfolding require_ek
  match_of_info (ok (some info)) operator t h = ground (arith, bytes_eq_iff info.operator operator)
  match_of_info (ok none) operator t h = cc
  match_of_info (err e) operator t h = cc
  match_of_info panic operator t h = cc

  pub ensure_sound :
      (s : S) (ek operator : Address) (t : Time)
      → ensure_ek_info_match p s ek operator t ≡ ok tt
      → get_ek_info p s ek ≡ ok (some (info_of operator t))
  unfolding ensure_ek_info_match
  ensure_sound s ek operator t h = match_of_info (get_ek_info p s ek) operator t h

  pub ensure_complete :
      (s : S) (ek operator : Address) (t : Time)
      → get_ek_info p s ek ≡ ok (some (info_of operator t))
      → ensure_ek_info_match p s ek operator t ≡ ok tt
  unfolding ensure_ek_info_match require_ek
  ensure_complete s ek operator t h = rw h (rw bytes_eq_refl (ground arith))
