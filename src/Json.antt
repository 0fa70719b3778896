-- ===== src/Json.antt =====
-- The Python values that `json.loads` returns, and what the program asks of them.
use firm_arbiter.Prelude.{
  ℕ, String, ◌≡◌, ◌↔◌, Bool, true, false, Option, none, some, arith, if◌then◌else◌, Eq, ◌==◌, ℕ-Eq,
  String-Eq,
}

-- `float` carries the natural number that the float equals, if there is one, and its text.
mutual
  pub data Json : Type 0 where
    null : Json
    boolean : Bool → Json
    integer : ℕ → Json
    negative : ℕ → Json
    float : Option ℕ → String → Json
    text : String → Json
    array : Items → Json
    object : Fields → Json

  pub data Items : Type 0 where
    nil : Items
    cons : Json → Items → Items

  pub data Fields : Type 0 where
    end : Fields
    field : String → Json → Fields → Fields

-- `document.get(key)`
unfoldable pub get : Fields → String → Option Json
get end k = none
get (field j v rest) k = if j == k then some v else get rest k

-- `key in document`
unfoldable pub has : Fields → String → Bool
has end k = false
has (field j v rest) k = if j == k then true else has rest k

-- `value == "..."`
unfoldable pub is_text : Json → String → Bool
is_text (text t) s = t == s
is_text _ s = false

-- `value == n`: a boolean equals 0 or 1, and a float the integer that it stands for.
unfoldable pub is_number : Json → ℕ → Bool
is_number (boolean true) n = n == 1
is_number (boolean false) n = n == 0
is_number (integer m) n = m == n
is_number (float (some m) _) n = m == n
is_number _ n = false

-- `negsuc n` is -(n + 1).
pub data ℤ : Type 0 where
  pos : ℕ → ℤ
  negsuc : ℕ → ℤ

unfoldable pub ℤ_eq : ℤ → ℤ → Bool
ℤ_eq (pos m) (pos n) = m == n
ℤ_eq (negsuc m) (negsuc n) = m == n
ℤ_eq _ _ = false

pub ℤ_eq_iff : (a b : ℤ) → (ℤ_eq a b ≡ true) ↔ (a ≡ b)
unfolding ℤ_eq
ℤ_eq_iff (pos m) (pos n) = ground arith
ℤ_eq_iff a b = ground arith

instance abbrev pub ℤ-Eq : Eq ℤ
ℤ-Eq = record { test = ℤ_eq; agrees = ℤ_eq_iff }

-- The integer of a value with `isinstance(value, int)`, which a boolean passes.
unfoldable pub as_int : Json → Option ℤ
as_int (integer n) = some (pos n)
as_int (negative n) = some (negsuc n)
as_int (boolean true) = some (pos 1)
as_int (boolean false) = some (pos 0)
as_int _ = none

-- `document.get(key) == "..."`
unfoldable pub says : Fields → String → String → Bool
unfolding get is_text
says doc key s = elim (get doc key) [ none ↦ false | some v ↦ is_text v s ]
