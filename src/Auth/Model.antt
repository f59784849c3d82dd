-- ===== src/Auth/Model.antt =====
-- The table `users`: src/auth/models.py.
use omnisync.Base.{ℕ, String, Bool, Timestamp}

pub record User : Type 0 where
  pub id : ℕ
  pub username : String
  pub hashed_password : String
  pub is_active : Bool
  pub created_at : Timestamp
