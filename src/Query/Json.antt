-- ===== src/Query/Json.antt =====
-- `serde_json::Value`, which the DSL carries, and the bound parameters of `duckdb::types::Value`
-- that the compiler makes of it: the constructors that the source names. A double is its IEEE-754
-- bit pattern, as is the `f32` of `Value.float`.
use consumer_engine.Prelude.{
  ℤ, pos, negsuc, ℕ, suc, ◌+◌, ◌-◌, ◌*◌, ◌/◌, ◌%◌, ◌^◌, Bool, Option, some, none, Text, ltb, ◌==◌,
  if◌then◌else◌,
}

pub record Double : Type 0 where
  pub bits : ℕ

-- `negative n` is -(n + 1), as `negsuc`; `positive` holds a u64.
pub data Number : Type 0 where
  positive : ℕ → Number
  negative : ℕ → Number
  float : Double → Number

mutual
  pub data Json : Type 0 where
    null : Json
    boolean : Bool → Json
    number : Number → Json
    string : Text → Json
    array : Items → Json
    object : Members → Json

  pub data Items : Type 0 where
    no_items : Items
    item : Json → Items → Items

  pub data Members : Type 0 where
    no_members : Members
    member : Text → Json → Members → Members

-- `arr.len()`
abbrev pub count_items : Items → ℕ
count_items no_items = 0
count_items (item x xs) = suc (count_items xs)

pub data Value : Type 0 where
  null : Value
  boolean : Bool → Value
  big_int : ℤ → Value
  float : ℕ → Value
  double : Double → Value
  text_value : Text → Value

-- `Number::as_i64`
unfoldable pub as_i64 : Number → Option ℤ
as_i64 (positive n) = if ltb n (2 ^ 63) then some (pos n) else none
as_i64 (negative n) = some (negsuc n)
as_i64 (float x) = none

-- `n as f64` for 2^63 ≤ n < 2^64: 53 bits are kept, the half of the last place goes to even.
unfoldable pub u64_as_f64 : ℕ → Double
u64_as_f64 n =
    let q = n / 2048 in
    let r = n % 2048 in
    let up = if ltb 1024 r then 1 else if r == 1024 then q % 2 else 0 in
    record { bits = 1086 * 2 ^ 52 + (q + up) - 2 ^ 52 }

-- `Number::as_f64`, for what `as_i64` refuses
unfoldable pub as_f64 : Number → Option Double
unfolding u64_as_f64
as_f64 (positive n) = some (u64_as_f64 n)
as_f64 (negative n) = none
as_f64 (float x) = some x
