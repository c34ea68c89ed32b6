-- ===== src/Tests/Versions.antt =====
-- A state of the test channel takes over what a newer one was packed into.
use perun_ckb_backend.Prelude.{
  zero, suc, ◌≤◌, ◌<◌, ◌≡◌, refl, ap, ◌↔◌, ◌⊎◌, true, false, none, some, [], ◌∷◌, ℤ, pos, Result,
  ok, err, get_elem?, is_negative, arith, ◌∙◌,
}
use perun_ckb_backend.Asset.{
  plain, new_ckbytes_asset, is_compatible_asset, is_invalid, is_sudt_asset,
}
use perun_ckb_backend.Perun.{State}
use perun_ckb_backend.Encoding.Bytes.{EncodeError, le_value, pack_uint128, to_uint128}
use perun_ckb_backend.Encoding.Bytes.Laws.{to_u128_le-fits}
use perun_ckb_backend.Encoding.State.{PackedState, pack_channel_state, pack_ckbyte_distribution}
use perun_ckb_backend.Transaction.Handler.{VirtualChannelStatus}
use perun_ckb_backend.Client.{ClientError}
use perun_ckb_backend.Client.Versions.{check_version, check_version-newer, update_state}
use perun_ckb_backend.Client.Versions.Stored.{LoadsUint128, OneCkbytes}
use perun_ckb_backend.Client.Versions.Packed.{
  Settling, TakesOver, update_state-TakesOver, update_state-negative,
}
use perun_ckb_backend.Tests.{sdk, perun, state}
use perun_ckb_backend.Tests.Clients.{status}

abbrev vc_status : VirtualChannelStatus
vc_status = record {
  vc_state = record { channel_id = 8; version = 3; is_final = false; allocation = []; locked = [] };
  parents = [];
  first_force_close = false;
  owner = record { pub_key = 2; payment_script_hash = 11; unlock_script_hash = 12 };
}

-- The virtual channel's state is as old as the one on the chain, and the parent's is newer.
abbrev newer : State
newer = record state { version = 4; is_final = true }

check_version-newer_example :
    ((check_version newer status none none ≡ some true) ↔ (status.state.version < newer.version))
    × ((check_version newer status (some state) (some vc_status) ≡ some true) ↔ (
        (status.state.version ≤ newer.version)
        × (vc_status.vc_state.version ≤ state.version)
        × ((status.state.version < newer.version) ⊎ (vc_status.vc_state.version < state.version))))
check_version-newer_example = check_version-newer newer state status vc_status

-- `uint128.LoadLittleEndian`
sdk-LoadsUint128 : LoadsUint128 sdk perun le_value
unfolding sdk
sdk-LoadsUint128 n h =
    let (bs, f, _, v) = to_u128_le-fits n h in
    ap (λ r. le_value (elim r [ ok bs ↦ bs | err e ↦ [] ])) f ∙ v

abbrev packed_of : Result EncodeError PackedState → PackedState
packed_of (ok s) = s
packed_of (err e) = status.state

abbrev packed : PackedState
unfolding pack_channel_state
packed = packed_of (pack_channel_state sdk perun newer)

newer-packed : pack_channel_state sdk perun newer ≡ ok packed
unfolding pack_channel_state is_compatible_asset is_invalid pack_ckbyte_distribution is_sudt_asset
    pack_uint128 to_uint128
newer-packed = refl

state-OneCkbytes : OneCkbytes sdk perun le_value 0 state.assets
unfolding is_compatible_asset is_invalid
state-OneCkbytes zero p a at c = ground arith
state-OneCkbytes (suc zero) p a at c = ground arith
state-OneCkbytes (suc (suc i)) p a at c = absurd (ground arith)

state-Settling : (s : State) → s.assets ≡ state.assets → Settling sdk perun le_value 0 state s
unfolding is_compatible_asset
state-Settling s e = record {
  same_assets = e;
  one_row_each = refl;
  indexed = λ r q. refl;
  ckbytes = (plain new_ckbytes_asset, new_ckbytes_asset, refl, refl);
  assets = state-OneCkbytes;
}

update_state-TakesOver_example :
    (t : State) × (update_state le_value packed perun state ≡ ok t)
    × TakesOver sdk perun le_value state newer t
update_state-TakesOver_example =
    update_state-TakesOver sdk perun le_value 0 state newer packed sdk-LoadsUint128
      (state-Settling newer refl) newer-packed

-- The first party has 2 ^ 63 CKBytes.
abbrev rich : State
rich = record state {
  balances = (pos 9223372036854775808 ∷ pos 20 ∷ []) ∷ (pos 5 ∷ pos 6 ∷ []) ∷ [];
}

abbrev rich_packed : PackedState
unfolding pack_channel_state
rich_packed = packed_of (pack_channel_state sdk perun rich)

rich-packed : pack_channel_state sdk perun rich ≡ ok rich_packed
unfolding pack_channel_state is_compatible_asset is_invalid pack_ckbyte_distribution is_sudt_asset
    pack_uint128 to_uint128
rich-packed = refl

abbrev state_of : Result ClientError State → State
state_of (ok s) = s
state_of (err e) = state

updated :
    update_state le_value rich_packed perun state
    ≡ ok (state_of (update_state le_value rich_packed perun state))
unfolding update_state is_compatible_asset is_invalid pack_ckbyte_distribution is_sudt_asset
    pack_uint128 to_uint128 pack_channel_state
updated = refl

update_state-negative_example :
    (x y : ℤ) × (get_elem? (state_of (update_state le_value rich_packed perun state)).balances 0
      ≡ some (x ∷ y ∷ []))
    × (is_negative x ≡ true)
unfolding is_compatible_asset
update_state-negative_example =
    update_state-negative sdk perun le_value 0 state rich
      (state_of (update_state le_value rich_packed perun state)) rich_packed
      (plain new_ckbytes_asset) new_ckbytes_asset 9223372036854775808 sdk-LoadsUint128
      (state-Settling rich refl) rich-packed refl refl refl (omega arith) updated
