-- ===== src/Relay/ActiveKey.antt =====
-- relay/db.go and relay/lcp.go: the enclave key that the prover uses, in memory and in two files, and
-- `loadEKIAndCheckUpdateNeeded`. Files, encodings and the two services are parameters.
pub mod Usable
pub mod Finalized
pub mod Restart
use lcp_go.Common.{
  ℕ, suc, zero, ◌+◌, ◌/◌, Bytes, Bool, true, false, ◌||◌, Option, none, some, if◌then◌else◌,
}
use lcp_go.Common.Int.{ℤ, pos, negsuc, int_64}
use lcp_go.Result.{
  Result, Error, ok, err, panic, ◌>>=◌, ◌>>◌, map_err, plain, caused, wrapped,
  enclave_key_info_not_found, no_file, file_failed, json_failed, msg_id_failed,
}
use lcp_go.GoTime.{Time, unix_time, before, add_duration, seconds}
use lcp_go.Types.{Height}

-- `enclave.EnclaveKeyInfo`
pub record EnclaveKeyInfo : Type 0 where
  pub enclave_key_address : Bytes
  pub attestation_time : ℕ  -- uint64
  pub report : Bytes
  pub signature : Bytes
  pub signing_cert : Bytes
  pub extension : Bytes

-- `unfinalizedEKI`, whose pointer may be nil after decoding
pub record UnfinalizedEki : Type 0 where
  pub info : Option EnclaveKeyInfo
  pub msg_id_bytes : Bytes

-- `core.MsgResult`: the first part of `Status`, and `BlockHeight`
pub record MsgResult : Type 0 where
  pub is_success : Bool
  pub block_height : Height

-- The files of `lastEnclaveKeyInfoFilePath`, named by its argument; the encodings; the counterparty
-- and the LCP service. Reading a file gives `none` where `os.IsNotExist` holds of the error.
pub record Services (F MsgId : Type 0) : Type 0 where
  pub read_file : F → Bool → Result (Option Bytes)
  pub write_file : F → Bool → Bytes → Result F
  pub file_exists : F → Bool → Result Bool  -- os.Stat
  pub remove_file : F → Bool → Result F
  pub marshal_info : EnclaveKeyInfo → Result Bytes
  pub unmarshal_info : Bytes → Result EnclaveKeyInfo
  pub marshal_unfinalized : UnfinalizedEki → Result Bytes
  pub unmarshal_unfinalized : Bytes → Result UnfinalizedEki
  pub marshal_msg_id : MsgId → Result Bytes
  pub unmarshal_msg_id : Bytes → Result MsgId
  pub latest_finalized_height : Result Height
  pub get_msg_result : MsgId → Result MsgResult
  pub height_lte : Height → Height → Bool
  pub enclave_key : Bytes → Result (Unit {0})

-- the fields of `Prover` that change, and the files
pub record KeyState (F MsgId : Type 0) : Type 0 where
  pub active_enclave_key : Option EnclaveKeyInfo
  pub unfinalized_msg_id : Option MsgId
  pub files : F

-- `errors.Is(err, ErrEnclaveKeyInfoNotFound)`
unfoldable pub is_not_found : Error → Bool
is_not_found (plain enclave_key_info_not_found) = true
is_not_found (plain _) = false
is_not_found (caused r e) = is_not_found e
is_not_found (wrapped s e) = is_not_found e

-- a duration divided by two, towards zero
unfoldable pub half : ℤ → ℤ
half (pos n) = pos (n / 2)
half (negsuc n) = minus (suc n / 2)
  where
    minus : ℕ → ℤ
    minus zero = pos 0
    minus (suc k) = negsuc k

module _ {F MsgId : Type 0} (sv : Services F MsgId) (key_expiration : ℕ) where
  unfoldable pub load_last_finalized_enclave_key : F → Result EnclaveKeyInfo
  load_last_finalized_enclave_key files = do
    found ← map_err (caused file_failed) (sv.read_file files true)
    (elim found [
      | none ↦ err (caused no_file (plain enclave_key_info_not_found))
      | some bz ↦ map_err (caused json_failed) (sv.unmarshal_info bz)
    ])

  unfoldable pub load_last_unfinalized_enclave_key : F → Result (Option EnclaveKeyInfo × MsgId)
  load_last_unfinalized_enclave_key files = do
    found ← map_err (caused file_failed) (sv.read_file files false)
    (elim found [
      | none ↦ err (caused no_file (plain enclave_key_info_not_found))
      | some bz ↦ (do
        ueki ← map_err (caused json_failed) (sv.unmarshal_unfinalized bz)
        id ← map_err (caused msg_id_failed) (sv.unmarshal_msg_id ueki.msg_id_bytes)
        ok (ueki.info, id))
    ])

  unfoldable pub save_finalized_enclave_key_info : F → EnclaveKeyInfo → Result F
  save_finalized_enclave_key_info files eki = do
    bz ← map_err (caused json_failed) (sv.marshal_info eki)
    map_err (caused file_failed) (sv.write_file files true bz)

  unfoldable pub save_unfinalized_enclave_key_info : F → EnclaveKeyInfo → MsgId → Result F
  save_unfinalized_enclave_key_info files eki id = do
    id_bytes ← map_err (caused msg_id_failed) (sv.marshal_msg_id id)
    bz ←
        map_err (caused json_failed)
          (sv.marshal_unfinalized (record { info = some eki; msg_id_bytes = id_bytes }))
    map_err (caused file_failed) (sv.write_file files false bz)

  -- `removeFinalizedEnclaveKeyInfo` and `removeUnfinalizedEnclaveKeyInfo`
  unfoldable pub remove_enclave_key_info : F → Bool → Result F
  remove_enclave_key_info files finalized = do
    there ← map_err (caused file_failed) (sv.file_exists files finalized)
    if there then map_err (caused file_failed) (sv.remove_file files finalized) else ok files

  unfoldable pub remove_enclave_key_infos : F → Result F
  remove_enclave_key_infos files = do
    files' ← remove_enclave_key_info files true
    remove_enclave_key_info files' false

  -- a nil key is a panic
  unfoldable pub check_eki_update_needed : Time → Option EnclaveKeyInfo → Result Bool
  check_eki_update_needed timestamp none = panic
  check_eki_update_needed timestamp (some eki) =
      let attestation_time = unix_time (int_64 eki.attestation_time) 0 in
      let update_time = add_duration attestation_time (half (seconds key_expiration)) in
      if before update_time timestamp
      then ok true
      else elim (sv.enclave_key eki.enclave_key_address) [
        | ok _ ↦ ok false
        | err e ↦ ok true
        | panic ↦ panic
      ]

  -- finalized, and success
  unfoldable pub check_msg_status : MsgId → Result (Bool × Bool)
  check_msg_status id = do
    height ← sv.latest_finalized_height
    res ← sv.get_msg_result id
    ok (if res.is_success then (sv.height_lte res.block_height height, true) else (false, false))

  -- where there is no unfinalized key: the state, and whether a new key is needed at once
  unfoldable pub load_finalized_key : KeyState F MsgId → KeyState F MsgId × Result Bool
  load_finalized_key st = elim (load_last_finalized_enclave_key st.files) [
    | ok eki ↦ (record st { active_enclave_key = some eki; unfinalized_msg_id = none }, ok false)
    | err e ↦ (st, (if is_not_found e then ok true else err e))
    | panic ↦ (st, panic)
  ]

  -- the prover without a key in memory
  unfoldable pub load_key : KeyState F MsgId → KeyState F MsgId × Result Bool
  load_key st = elim (load_last_unfinalized_enclave_key st.files) [
    | ok (eki, id) ↦
        (record st { active_enclave_key = eki; unfinalized_msg_id = some id }, ok false)
    | err e ↦ if is_not_found e then load_finalized_key st else (st, err e)
    | panic ↦ (st, panic)
  ]

  -- the file of the unfinalized key is removed, and a new key is needed
  unfoldable pub drop_unfinalized : KeyState F MsgId → KeyState F MsgId × Result Bool
  drop_unfinalized st = elim (remove_enclave_key_info st.files false) [
    | ok files ↦ (record st { files = files }, ok true)
    | err e ↦ (st, err e)
    | panic ↦ (st, panic)
  ]

  -- The registration is finalized. Where the second write fails, the first one has happened.
  unfoldable pub finalize :
      KeyState F MsgId → Option EnclaveKeyInfo → KeyState F MsgId × Result Bool
  finalize st none = (st, panic)
  finalize st (some eki) = elim (save_finalized_enclave_key_info st.files eki) [
    | ok files ↦ (elim (remove_enclave_key_info files false) [
      | ok files' ↦ (record st { files = files'; unfinalized_msg_id = none }, ok false)
      | err e ↦ (record st { files = files }, err e)
      | panic ↦ (record st { files = files }, panic)
    ])
    | err e ↦ (st, err e)
    | panic ↦ (st, panic)
  ]

  unfoldable pub finalize_unless_needed :
      KeyState F MsgId → Result Bool → KeyState F MsgId × Result Bool
  finalize_unless_needed st (ok true) = (st, ok true)
  finalize_unless_needed st (ok false) = finalize st st.active_enclave_key
  finalize_unless_needed st (err e) = (st, err e)
  finalize_unless_needed st panic = (st, panic)

  -- the branches on the outcome of `checkMsgStatus`
  unfoldable pub on_msg_status :
      Time → KeyState F MsgId → Result (Bool × Bool) → KeyState F MsgId × Result Bool
  on_msg_status now st (ok (finalized, false)) = drop_unfinalized st
  on_msg_status now st (ok (true, true)) =
      finalize_unless_needed st (check_eki_update_needed now st.active_enclave_key)
  on_msg_status now st (ok (false, true)) = (st, check_eki_update_needed now st.active_enclave_key)
  on_msg_status now st (err e) = (st, err e)
  on_msg_status now st panic = (st, panic)

  -- The part for a key in memory. The counterparty is asked twice for the result of the message, and
  -- answers the same here.
  unfoldable pub check_loaded :
      Time → KeyState F MsgId → Option MsgId → KeyState F MsgId × Result Bool
  check_loaded now st none = (st, check_eki_update_needed now st.active_enclave_key)
  check_loaded now st (some id) = elim (sv.get_msg_result id) [
    | err e ↦ drop_unfinalized st
    | ok r ↦ on_msg_status now st (check_msg_status id)
    | panic ↦ (st, panic)
  ]

  -- the rest of the method after the key was loaded
  unfoldable pub after_load : Time → KeyState F MsgId × Result Bool → KeyState F MsgId × Result Bool
  after_load now (st, ok true) = (st, ok true)
  after_load now (st, ok false) = check_loaded now st st.unfinalized_msg_id
  after_load now (st, err e) = (st, err e)
  after_load now (st, panic) = (st, panic)

  unfoldable pub load_eki_and_check_update_needed :
      Time → KeyState F MsgId → KeyState F MsgId × Result Bool
  load_eki_and_check_update_needed now st = elim st.active_enclave_key [
    | none ↦ after_load now (load_key st)
    | some eki ↦ check_loaded now st st.unfinalized_msg_id
  ]
