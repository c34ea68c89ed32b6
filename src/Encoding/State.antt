-- ===== src/Encoding/State.antt =====
-- encoding/channel_state.go: a channel state as the contract's molecule `ChannelState`.
pub mod Commitment
use perun_ckb_backend.Prelude.{
  ℕ, zero, suc, ◌+◌, ◌*◌, ◌-◌, ◌==◌, ◌≤◌, leb, ltb, ◌&&◌, if◌then◌else◌, Bool, true, false, Option,
  none, some, List, [], ◌∷◌, ◌++◌, length, ℤ, pos, negsuc, Result, ok, err, ◌>>=◌, ◌>>◌, check, not,
}
use perun_ckb_backend.Prelude.Words.{u64_mod}
use perun_ckb_backend.Ckb.{Sdk}
use perun_ckb_backend.Asset.{
  AssetError, Sudt, Asset, PAsset, nervos, plain, foreign, is_compatible_asset, is_invalid,
  is_sudt_asset,
}
use perun_ckb_backend.Perun.{State, SubAlloc, GoPerun}
use perun_ckb_backend.Encoding.Bytes.{EncodeError, to_u128_le, pack_uint128, to_uint128}

pub record EthAsset : Type 0 where
  pub chain_id : List ℕ
  pub asset_address : List ℕ

pub record SudtBalances : Type 0 where
  pub asset : Sudt
  pub nth0 : List ℕ
  pub nth1 : List ℕ

-- The union `AnyBalances`.
pub data AnyBalances : Type 0 where
  ckbyte_distribution : ℕ → ℕ → AnyBalances
  sudt_balances : SudtBalances → AnyBalances
  eth_balances : EthAsset → List ℕ → List ℕ → AnyBalances

pub record SubBalances : Type 0 where
  pub ckbytes : ℕ × ℕ
  pub sudts : List SudtBalances

-- The molecule `SubAlloc`.
pub record PackedSubAlloc : Type 0 where
  pub id : ℕ
  pub balances : SubBalances

-- The molecule `ChannelState` with its `Balances`.
pub record PackedState : Type 0 where
  pub channel_id : ℕ
  pub version : ℕ
  pub is_final : Bool
  pub allocation : List AnyBalances
  pub locked : List PackedSubAlloc

-- `asset.SUDTBalances`, with its `[2]uint128.Uint128`.
pub record SudtDistribution : Type 0 where
  pub asset : Sudt
  pub first : ℕ
  pub second : ℕ

-- `x.IsUint64()` with `x.Uint64()`
unfoldable pub to_uint64 : ℤ → Option ℕ
to_uint64 (pos n) = if ltb n u64_mod then some n else none
to_uint64 (negsuc n) = none

-- `PackCKByteDistribution`
unfoldable pub pack_ckbyte_distribution : ℤ → ℤ → Result EncodeError (ℕ × ℕ)
unfolding to_uint64
pack_ckbyte_distribution a b = elim (to_uint64 a) [
  | none ↦ err EncodeError.not_uint64
  | some x ↦ elim (to_uint64 b) [ none ↦ err EncodeError.not_uint64 | some y ↦ ok (x, y) ]
]

-- `x.SetString(s, 10)` on the digits of `s`, from an accumulator.
unfoldable pub decimal_digits : ℕ → List ℕ → Option ℕ
decimal_digits acc [] = some acc
decimal_digits acc (c ∷ cs) =
    let rest = decimal_digits (acc * 10 + (c - b'0')) cs in
    if leb b'0' c && leb c b'9' then rest else none

unfoldable pub unsigned_decimal : List ℕ → Option ℕ
unfolding decimal_digits
unsigned_decimal [] = none
unsigned_decimal (c ∷ cs) = decimal_digits 0 (c ∷ cs)

abbrev negate : ℕ → ℤ
negate zero = pos 0
negate (suc n) = negsuc n

-- `new(big.Int).SetString(s, 10)`: an optional sign, then at least one digit.
unfoldable pub set_string : List ℕ → Option ℤ
unfolding unsigned_decimal
set_string [] = none
set_string (c ∷ cs) =
    if c == b'-'
    then elim (unsigned_decimal cs) [ none ↦ none | some n ↦ some (negate n) ]
    else elim (if c == b'+' then unsigned_decimal cs else unsigned_decimal (c ∷ cs)) [
      | none ↦ none
      | some n ↦ some (pos n)
    ]

-- `PackEthAsset`. An asset of this backend reaches it never; its ledger id is "03".
unfoldable pub pack_eth_asset : PAsset → Result EncodeError EthAsset
unfolding set_string
pack_eth_asset (foreign a) = elim a.ledger_key [
  | none ↦ err EncodeError.not_multi_asset
  | some key ↦ elim (set_string key) [
    | none ↦ err EncodeError.chain_id
    | some id ↦ do
      chain_id ← to_u128_le id
      check (length a.address == 20) EncodeError.address_length
      ok (record { chain_id = chain_id; asset_address = a.address })
  ]
]
pack_eth_asset (nervos a) = err EncodeError.address_length
pack_eth_asset (plain a) = err EncodeError.not_multi_asset

module _ (sdk : Sdk) where
  -- `PackSUDTDistribution` and `PackEthDistribution`
  unfoldable pub pack_distribution : ℤ → ℤ → Result EncodeError (List ℕ × List ℕ)
  pack_distribution a b = do x ← pack_uint128 sdk a; y ← pack_uint128 sdk b; ok (x, y)

  -- `PackEthBalances`
  unfoldable pub pack_eth_balances : ℤ → ℤ → PAsset → Result EncodeError AnyBalances
  unfolding pack_distribution
  pack_eth_balances a b p = do
    dist ← pack_distribution a b
    asset ← pack_eth_asset p
    ok (eth_balances asset dist.0 dist.1)

  -- `PackSUDTBalances`
  unfoldable pub pack_sudt_balances : Asset → ℤ → ℤ → Result EncodeError SudtBalances
  unfolding pack_distribution
  pack_sudt_balances a x y = elim (is_sudt_asset (plain a)) [
    | err e ↦ err EncodeError.not_sudt
    | ok s ↦ do
      dist ← pack_distribution x y
      ok (record { asset = s; nth0 = dist.0; nth1 = dist.1 })
  ]

  -- The row of an asset of this backend, in the loop of `PackBalances`.
  unfoldable pub pack_ckb_asset : Asset → ℤ → ℤ → Result EncodeError AnyBalances
  unfolding pack_sudt_balances
  pack_ckb_asset a x y =
      if is_invalid a
      then err EncodeError.invalid_asset
      else (if a.is_ckbytes
          then (do d ← pack_ckbyte_distribution x y; ok (ckbyte_distribution d.0 d.1))
          else (do d ← pack_sudt_balances a x y; ok (sudt_balances d)))

  -- One row of `PackSubAlloc`: CKBytes are set, SUDTs are appended.
  unfoldable pub pack_locked_asset : Asset → ℤ → SubBalances → Result EncodeError SubBalances
  unfolding pack_sudt_balances
  pack_locked_asset a total acc =
      if is_invalid a
      then err EncodeError.invalid_asset
      else (if a.is_ckbytes
          then (do d ← pack_ckbyte_distribution total (pos 0); ok (record acc { ckbytes = d }))
          else (do
            d ← pack_sudt_balances a total (pos 0)
            ok (record acc { sudts = acc.sudts ++ d ∷ [] })))

  -- The loop of `PackSubAlloc` over the assets and the rows, which are equally many.
  unfoldable pub pack_locked_assets :
      List PAsset → List ℤ → SubBalances → Result EncodeError SubBalances
  unfolding pack_locked_asset
  pack_locked_assets [] bals acc = ok acc
  pack_locked_assets (p ∷ ps) [] acc = err EncodeError.rows_mismatch
  pack_locked_assets (p ∷ ps) (bal ∷ bals) acc = elim (is_compatible_asset p) [
    | none ↦ err EncodeError.eth_locked
    | some a ↦ pack_locked_asset a bal acc >>= pack_locked_assets ps bals
  ]

  abbrev pub empty_balances : SubBalances
  empty_balances = record { ckbytes = (0, 0); sudts = [] }

  -- `PackSubAlloc`
  unfoldable pub pack_sub_alloc : SubAlloc → List PAsset → Result EncodeError PackedSubAlloc
  unfolding pack_locked_assets
  pack_sub_alloc sub assets = do
    check (length sub.bals == length assets) EncodeError.rows_mismatch
    balances ← pack_locked_assets assets sub.bals empty_balances
    ok (record { id = sub.id; balances = balances })

  -- The loop of `PackBalances` over the locked allocations.
  unfoldable pub pack_sub_allocs :
      List SubAlloc → List PAsset → Result EncodeError (List PackedSubAlloc)
  unfolding pack_sub_alloc
  pack_sub_allocs [] assets = ok []
  pack_sub_allocs (sub ∷ subs) assets = do
    s ← pack_sub_alloc sub assets
    ss ← pack_sub_allocs subs assets
    ok (s ∷ ss)

  -- `PackDefaultSubAlloc`
  abbrev pub default_sub_alloc : PackedSubAlloc
  default_sub_alloc = record { id = 0; balances = empty_balances }

  -- The locked part of `PackBalances`.
  unfoldable pub pack_locked :
      List SubAlloc → List PAsset → Result EncodeError (List PackedSubAlloc)
  unfolding pack_sub_allocs
  pack_locked [] assets = ok (default_sub_alloc ∷ [])
  pack_locked (sub ∷ subs) assets = pack_sub_allocs (sub ∷ subs) assets

  module _ (perun : GoPerun) where
    -- One round of the loop of `PackBalances` over the assets.
    unfoldable pub pack_any_balances : State → PAsset → Result EncodeError AnyBalances
    unfolding pack_ckb_asset pack_eth_balances
    pack_any_balances s p = elim (is_compatible_asset p) [
      | none ↦ pack_eth_balances (perun.balance s 0 p) (perun.balance s 1 p) p
      | some a ↦ pack_ckb_asset a (perun.balance s 0 (plain a)) (perun.balance s 1 (plain a))
    ]

    unfoldable pub pack_allocation : State → List PAsset → Result EncodeError (List AnyBalances)
    unfolding pack_any_balances
    pack_allocation s [] = ok []
    pack_allocation s (p ∷ ps) = do
      row ← pack_any_balances s p
      rows ← pack_allocation s ps
      ok (row ∷ rows)

    -- `PackBalances`
    unfoldable pub pack_balances :
        State → Result EncodeError (List AnyBalances × List PackedSubAlloc)
    unfolding pack_allocation pack_locked
    pack_balances s = do
      allocation ← pack_allocation s s.assets
      locked ← pack_locked s.locked s.assets
      ok (allocation, locked)

    -- `PackChannelState`
    unfoldable pub pack_channel_state : State → Result EncodeError PackedState
    unfolding pack_balances
    pack_channel_state s = do
      balances ← pack_balances s
      ok (record {
        channel_id = s.id;
        version = s.version;
        is_final = s.is_final;
        allocation = balances.0;
        locked = balances.1;
      })

    -- One SUDT asset in `GetSUDTBalancesSlice`.
    unfoldable pub sudt_distribution : State → Asset → Result EncodeError SudtDistribution
    sudt_distribution s a = elim (is_sudt_asset (plain a)) [
      | err e ↦ err EncodeError.not_sudt
      | ok sudt ↦ do
        x ← to_uint128 (perun.balance s 0 (plain a))
        y ← to_uint128 (perun.balance s 1 (plain a))
        ok (record { asset = sudt; first = x; second = y })
    ]

    -- `GetSUDTBalancesSlice`, over the assets that are left.
    unfoldable pub get_sudt_balances :
        State → List PAsset → Result EncodeError (List SudtDistribution)
    unfolding sudt_distribution
    get_sudt_balances s [] = ok []
    get_sudt_balances s (p ∷ ps) =
        let rest = get_sudt_balances s ps in
        elim (is_compatible_asset p) [
          | none ↦ rest
          | some a ↦
              if is_invalid a
              then err EncodeError.invalid_asset
              else (if a.is_ckbytes
                  then rest
                  else (do d ← sudt_distribution s a; ds ← rest; ok (d ∷ ds)))
        ]
