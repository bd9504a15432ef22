-- ===== src/Error.antt =====
-- src/error.rs: the errors of the API, and results that may carry one. The text that an error
-- carries (the operating system's code, a message) is left out: nothing branches on it.
-- `blocked` is no value of the program: the thread waits for another one, or a loop of the model ran
-- out of its fuel, and nothing is returned.

pub data Error : Type 0 where
  io already_locked empty_key corrupt read_only not_implemented : Error

pub data Result {ℓ} (A : Type ℓ) : Type ℓ where
  ok : A → Result A
  err : Error → Result A
  blocked : Result A
