-- ===== src/Common/Outcome.antt =====
-- What a call gives: a value, or the exception that it throws (src/exceptions.h and the standard
-- classes that the code throws). `assertion` stands for an assert that does not hold, `memory_fault` stands for an access outside an object that the code
-- makes with no check, whose behaviour C++ leaves undefined; `out_of_fuel` is the model's own, for a
-- loop that has used up the rounds it was given.

pub data Error : Type 0 where
  file_not_found_error io_error no_data_error function_not_implemented_error : Error
  attribute_not_found_error operation_not_permitted_error : Error
  logic_error runtime_error out_of_range : Error
  assertion memory_fault input_over_read out_of_fuel : Error

pub data Result {ℓ} (A : Type ℓ) : Type ℓ where
  ok : A → Result A
  err : Error → Result A

infixl 5 ◌>>=◌
abbrev pub ◌>>=◌ {ℓ κ} : {A : Type ℓ} {B : Type κ} → Result A → (A → Result B) → Result B
ok a >>= f = f a
err e >>= f = err e
