-- ===== src/Host/RecoveryQueue/Keys.antt =====
-- delivery-recovery-queue.ts: the keys of requests, and the maps and sets under them.
use zhongduan.Base.{
  ℕ, Bool, true, false, ◌&&◌, Option, none, some, List, [], ◌∷◌, ◌++◌, ◌==◌, if◌then◌else◌,
}

pub record RecoveryKey : Type 0 where
  pub stream_id : ℕ
  pub delivery_generation : ℕ

abbrev pub same_recovery_key : RecoveryKey → RecoveryKey → Bool
same_recovery_key left right =
    left.stream_id == right.stream_id && left.delivery_generation == right.delivery_generation

abbrev pub has_key : RecoveryKey → List RecoveryKey → Bool
has_key key [] = false
has_key key (k ∷ ks) = if same_recovery_key k key then true else has_key key ks

abbrev pub add_key : RecoveryKey → List RecoveryKey → List RecoveryKey
add_key key ks = if has_key key ks then ks else ks ++ (key ∷ [])

abbrev pub delete_key : RecoveryKey → List RecoveryKey → List RecoveryKey
delete_key key [] = []
delete_key key (k ∷ ks) =
    if same_recovery_key k key then delete_key key ks else k ∷ delete_key key ks

-- A `Map` under such keys, to numbers.
abbrev pub KeyMap : Type 0
KeyMap = List (RecoveryKey × ℕ)

abbrev pub key_get : RecoveryKey → KeyMap → Option ℕ
key_get key [] = none
key_get key ((k, n) ∷ rest) = if same_recovery_key k key then some n else key_get key rest

abbrev pub key_set : RecoveryKey → ℕ → KeyMap → KeyMap
key_set key n [] = (key, n) ∷ []
key_set key n ((k, m) ∷ rest) =
    if same_recovery_key k key then (k, n) ∷ rest else (k, m) ∷ key_set key n rest

abbrev pub key_delete : RecoveryKey → KeyMap → KeyMap
key_delete key [] = []
key_delete key ((k, m) ∷ rest) =
    if same_recovery_key k key then key_delete key rest else (k, m) ∷ key_delete key rest

abbrev pub keys_of : KeyMap → List RecoveryKey
keys_of [] = []
keys_of ((k, m) ∷ rest) = k ∷ keys_of rest

abbrev pub or_zero : Option ℕ → ℕ
or_zero none = 0
or_zero (some n) = n

abbrev pub or_else : ℕ → Option ℕ → ℕ
or_else m none = m
or_else m (some n) = n

-- The members of a list, each once.
abbrev pub unique_keys : List RecoveryKey → List RecoveryKey → List RecoveryKey
unique_keys [] seen = seen
unique_keys (k ∷ ks) seen = unique_keys ks (add_key k seen)
