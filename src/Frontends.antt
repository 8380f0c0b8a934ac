-- ===== src/Frontends.antt =====
-- What the two MIDAS front ends, feArduino and feScan, share: the arithmetic of float and double, and
-- the results that MIDAS expects from a callback.
pub mod Scan
pub mod Helper
pub mod Arduino
use mpmt_test_stand.Prelude.{ℕ, Bool}

-- The arithmetic that the compiler and the C library provide, on float (F) and double (G). An integer
-- is an int32_t, as its bit pattern.
pub record Arith (F G : Type 0) : Type 0 where
  pub add : F → F → F
  pub sub : F → F → F
  pub mul : F → F → F
  pub div : F → F → F
  pub lt : F → F → Bool
  pub of_int : ℕ → F
  -- from uint32_t
  pub of_uint : ℕ → F
  pub widen : F → G
  pub narrow : G → F
  -- a literal: the digits and how many of them stand behind the point
  pub decimal : ℕ → ℕ → G
  pub m_pi : G
  pub mul_double : G → G → G
  pub div_double : G → G → G
  pub le_double : G → G → Bool
  pub double_of_int : ℕ → G
  -- `round`, converted to int32_t and to uint32_t
  pub round_int32 : F → ℕ
  pub round_uint32 : F → ℕ

-- SUCCESS, FE_ERR_ODB, FE_ERR_HW, CM_DB_ERROR, and what cm_transition returns.
pub data FrontendStatus : Type 0 where
  success fe_err_odb fe_err_hw cm_db_error : FrontendStatus
  transition_status : ℕ → FrontendStatus
