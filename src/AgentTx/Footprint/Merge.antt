-- ===== src/AgentTx/Footprint/Merge.antt =====
-- What the merge does to a footprint, as sets of keys.
use text.Mathlib.TextEquality.{eq_iff}
use stellar_agent_guard_cont.Common.{
  ◌≡◌, refl, ap, sym, ◌∙◌, Bool, true, false, not, ◌&&◌, ◌||◌, List, [], ◌∷◌, ◌++◌, arith,
  Bool-cases, inl, inr,
}
use stellar_agent_guard_cont.Types.Policy.{Address, sym_eq}
use stellar_agent_guard_cont.AgentTx.Call.{CallKind}
use stellar_agent_guard_cont.AgentTx.Footprint.{
  LedgerKey, contract_data, other_key, StorageVal, symbol_vec, contract_instance, other_val,
  Durability, temporary, persistent, LedgerFootprint, key_eq, val_eq, durability_eq, contains_key,
  retain_others, push_missing, merge_key, StorageKeyTouch, to_ledger_key, is_written, variant,
  declare, declare_all, merge_all, guard_storage_touches, guard_footprint, merge_guard_footprint,
  guard_data_key, guard_instance_key, GuardKey, policy, window, last_heartbeat, admin_frozen,
}

durability_eq→eq : (d e : Durability) → durability_eq d e ≡ true → d ≡ e
durability_eq→eq temporary temporary h = refl
durability_eq→eq persistent persistent h = refl
durability_eq→eq temporary persistent h = cc h
durability_eq→eq persistent temporary h = cc h

val_eq→eq : (k l : StorageVal) → val_eq k l ≡ true → k ≡ l
val_eq→eq (symbol_vec s) (symbol_vec t) h = ground (arith, eq_iff s t)
val_eq→eq contract_instance contract_instance h = refl
val_eq→eq (other_val m) (other_val n) h = ground arith
val_eq→eq (symbol_vec s) contract_instance h = cc h
val_eq→eq (symbol_vec s) (other_val n) h = cc h
val_eq→eq contract_instance (symbol_vec t) h = cc h
val_eq→eq contract_instance (other_val n) h = cc h
val_eq→eq (other_val m) (symbol_vec t) h = cc h
val_eq→eq (other_val m) contract_instance h = cc h

-- Equal keys are the same key.
pub key_eq→eq : (a b : LedgerKey) → key_eq a b ≡ true → a ≡ b
unfolding key_eq
key_eq→eq (contract_data a k d) (contract_data b l e) h =
    ground (arith, val_eq→eq k l, durability_eq→eq d e)
key_eq→eq (other_key m) (other_key n) h = ground arith
key_eq→eq (contract_data a k d) (other_key n) h = cc h
key_eq→eq (other_key n) (contract_data a k d) h = cc h

pub contains_key-append :
    (xs : List LedgerKey) (a k : LedgerKey)
    → contains_key (xs ++ (a ∷ [])) k ≡ contains_key xs k || key_eq a k
unfolding contains_key
contains_key-append [] a k = ground arith
contains_key-append (x ∷ xs) a k = ground (arith, contains_key-append xs a k)

pub contains_key-push_missing :
    (xs : List LedgerKey) (a k : LedgerKey)
    → contains_key (push_missing xs a) k ≡ contains_key xs k || key_eq a k
unfolding push_missing
contains_key-push_missing xs a k = ground (arith, contains_key-append xs a k, key_eq→eq a k)

pub contains_key-retain_others :
    (xs : List LedgerKey) (a k : LedgerKey)
    → contains_key (retain_others xs a) k ≡ contains_key xs k && not (key_eq a k)
unfolding contains_key retain_others
contains_key-retain_others [] a k = refl
contains_key-retain_others (x ∷ xs) a k =
    ground (arith, contains_key-retain_others xs a k, key_eq→eq x a, key_eq→eq a k, key_eq→eq x k)

module _ (fp : LedgerFootprint) (t k : LedgerKey) where
  merge_key-writes :
      (w : Bool)
      → contains_key (merge_key fp t w).writes k ≡ contains_key fp.writes k || (key_eq t k && w)
  unfolding merge_key
  merge_key-writes true = ground (arith, contains_key-push_missing fp.writes t k)
  merge_key-writes false = ground arith

  merge_key-reads_written :
      contains_key (merge_key fp t true).reads k ≡ contains_key fp.reads k && not (key_eq t k)
  unfolding merge_key
  merge_key-reads_written = contains_key-retain_others fp.reads t k

  merge_key-reads :
      contains_key (merge_key fp t false).reads k
      ≡ contains_key fp.reads k || (key_eq t k && not (contains_key fp.writes k))
  unfolding merge_key
  merge_key-reads = ground (arith, contains_key-push_missing fp.reads t k, key_eq→eq t k)

-- No key is two keys.
apart : (t u k : LedgerKey) → key_eq t u ≡ false → (key_eq t k && key_eq u k) ≡ false
apart t u k h = ground (arith, key_eq→eq t k, key_eq→eq u k)

module _ (guard : Address) (kind : CallKind) (k : LedgerKey) where
  -- Whether one of the touches writes the key, or reads it without writing.
  abbrev written_in : List StorageKeyTouch → Bool
  written_in [] = false
  written_in (t ∷ ts) =
      (key_eq (to_ledger_key t.target guard) k && is_written t.written_on kind) || written_in ts

  abbrev read_in : List StorageKeyTouch → Bool
  read_in [] = false
  read_in (t ∷ ts) =
      (key_eq (to_ledger_key t.target guard) k && not (is_written t.written_on kind)) || read_in ts

  declare_all-writes :
      (ts : List StorageKeyTouch) (fp : LedgerFootprint)
      → contains_key (declare_all guard kind ts fp).writes k
        ≡ contains_key fp.writes k || written_in ts
  declare_all-writes [] fp = ground arith
  declare_all-writes (t ∷ ts) fp = elim (Bool-cases (is_written t.written_on kind)) [
    | inl w ↦ rw w (
        ground (
          arith,
          declare_all-writes ts (declare fp (to_ledger_key t.target guard) true),
          contains_key-append fp.writes (to_ledger_key t.target guard) k,
        ))
    | inr w ↦
        rw w
          (ground (arith, declare_all-writes ts (declare fp (to_ledger_key t.target guard) false)))
  ]

  declare_all-reads :
      (ts : List StorageKeyTouch) (fp : LedgerFootprint)
      → contains_key (declare_all guard kind ts fp).reads k ≡ contains_key fp.reads k || read_in ts
  declare_all-reads [] fp = ground arith
  declare_all-reads (t ∷ ts) fp = elim (Bool-cases (is_written t.written_on kind)) [
    | inl w ↦
        rw w (ground (arith, declare_all-reads ts (declare fp (to_ledger_key t.target guard) true)))
    | inr w ↦ rw w (
        ground (
          arith,
          declare_all-reads ts (declare fp (to_ledger_key t.target guard) false),
          contains_key-append fp.reads (to_ledger_key t.target guard) k,
        ))
  ]

  merge_all-writes :
      (ts : List StorageKeyTouch) (fp : LedgerFootprint)
      → contains_key (merge_all guard kind ts fp).writes k
        ≡ contains_key fp.writes k || written_in ts
  merge_all-writes [] fp = ground arith
  merge_all-writes (t ∷ ts) fp =
      let key = to_ledger_key t.target guard in
      let w = is_written t.written_on kind in
      ground (arith, merge_all-writes ts (merge_key fp key w), merge_key-writes fp key k w)

  merge_all-reads :
      (ts : List StorageKeyTouch) (fp : LedgerFootprint)
      → (written_in ts && read_in ts) ≡ false
      → contains_key (merge_all guard kind ts fp).reads k
        ≡ (contains_key fp.reads k && not (written_in ts))
          || (read_in ts && not (contains_key fp.writes k))
  merge_all-reads [] fp h = ground arith
  merge_all-reads (t ∷ ts) fp h =
      let key = to_ledger_key t.target guard in
      elim (Bool-cases (is_written t.written_on kind)) [
        | inl w ↦ rw w (
            ground (
              arith,
              merge_all-reads ts (merge_key fp key true),
              merge_key-writes fp key k true,
              merge_key-reads_written fp key k,
            ))
        | inr w ↦ rw w (
            ground (
              arith,
              merge_all-reads ts (merge_key fp key false),
              merge_key-writes fp key k false,
              merge_key-reads fp key k,
            ))
      ]

  data_keys_apart :
      (i j : GuardKey)
      → sym_eq (variant i) (variant j) ≡ false
      → (key_eq (guard_data_key guard i) k && key_eq (guard_data_key guard j) k) ≡ false
  unfolding key_eq
  data_keys_apart i j h =
      apart (guard_data_key guard i) (guard_data_key guard j) k (ground (arith, h))

  instance_apart :
      (i : GuardKey)
      → (key_eq (guard_data_key guard i) k && key_eq (guard_instance_key guard) k) ≡ false
  unfolding key_eq
  instance_apart i = apart (guard_data_key guard i) (guard_instance_key guard) k (ground arith)

  touches_apart : (written_in guard_storage_touches && read_in guard_storage_touches) ≡ false
  touches_apart = ground (
    arith,
    data_keys_apart policy window refl,
    data_keys_apart policy last_heartbeat refl,
    data_keys_apart admin_frozen window refl,
    data_keys_apart admin_frozen last_heartbeat refl,
    data_keys_apart window last_heartbeat refl,
    instance_apart policy,
    instance_apart admin_frozen,
    instance_apart window,
    instance_apart last_heartbeat,
  )

  own-writes : contains_key (guard_footprint guard kind).writes k ≡ written_in guard_storage_touches
  unfolding guard_footprint contains_key
  own-writes = declare_all-writes guard_storage_touches (record { reads = []; writes = [] })

  own-reads : contains_key (guard_footprint guard kind).reads k ≡ read_in guard_storage_touches
  unfolding guard_footprint contains_key
  own-reads = declare_all-reads guard_storage_touches (record { reads = []; writes = [] })

-- The merge, for each key: the declared writes are those of the simulation and those of the guard. The
-- declared reads are those of the simulation that the guard does not write, and the guard's reads that
-- the simulation does not write.
pub merge_guard_footprint_lem :
    (fp : LedgerFootprint) (guard : Address) (kind : CallKind) (k : LedgerKey)
    → let merged = merge_guard_footprint fp guard kind in
      let own = guard_footprint guard kind in
      (contains_key merged.writes k ≡ contains_key fp.writes k || contains_key own.writes k)
      × (contains_key merged.reads k
          ≡ (contains_key fp.reads k && not (contains_key own.writes k))
            || (contains_key own.reads k && not (contains_key fp.writes k)))
unfolding merge_guard_footprint
merge_guard_footprint_lem fp guard kind k =
    let x = contains_key fp.writes k in
    let y = contains_key fp.reads k in
    let writes = own-writes guard kind k in
    let reads = own-reads guard kind k in
    (
      merge_all-writes guard kind k guard_storage_touches fp
          ∙ ap (λ (w : Bool). x || w) (sym writes),
      merge_all-reads guard kind k guard_storage_touches fp (touches_apart guard kind k)
          ∙ (ap
                (λ (w : Bool).
                  (y && not w) || (read_in guard kind k guard_storage_touches && not x))
                (sym writes)
              ∙ ap
                  (λ (r : Bool).
                    (y && not (contains_key (guard_footprint guard kind).writes k)) || (r && not x))
                  (sym reads)),
    )
