-- ===== src/Models/BlockNumber.antt =====
-- models/blocknumber.go: the last block that was processed.
use photon_monitoring.Base.{ℤ, pos, [], ◌∷◌, Text, ⊤, ◌≡◌, refl, text_eq, Option}
use photon_monitoring.Platform.{Platform}
use photon_monitoring.World.{M, World, ret, ◌>>=◌, pure, first, write, last_block_numbers}
use photon_monitoring.World.Frame.{Keeps, keeps_rules}
use photon_monitoring.Models.Rows.{LastBlockNumber}

-- "lastBlockNumberKey"
abbrev pub last_block_number_key : Text
last_block_number_key =
    b'l' ∷ b'a' ∷ b's' ∷ b't' ∷ b'B' ∷ b'l' ∷ b'o' ∷ b'c' ∷ b'k' ∷ b'N' ∷ b'u' ∷ b'm' ∷ b'b' ∷ b'e'
    ∷ b'r' ∷ b'K' ∷ b'e' ∷ b'y' ∷ []

module _ ⦃p : Platform⦄ where
  -- The row is read into one variable, and another is returned.
  pub get_latest_block_number : M ℤ
  get_latest_block_number = do
    let number = pos 0
    row ← first last_block_numbers (λ r. text_eq r.key last_block_number_key)
    pure number

  pub save_latest_block_number : ℤ → M ⊤
  save_latest_block_number n = do
    e ← write last_block_numbers (
        p.gorm.save (λ r. text_eq r.key last_block_number_key)
          (record { key = last_block_number_key; block_number = n }))
    pure tt

  pub save_latest_block_number-Keeps :
      {B : Type 0} {f : World → B}
      → ((h : p.gorm.Table LastBlockNumber → Option Text × p.gorm.Table LastBlockNumber)
          → Keeps f (write last_block_numbers h))
      → (n : ℤ) → Keeps f (save_latest_block_number n)
  unfolding save_latest_block_number
  save_latest_block_number-Keeps kb n = search keeps_rules

  pub get_latest_block_number-Keeps : {B : Type 0} {f : World → B} → Keeps f get_latest_block_number
  unfolding get_latest_block_number
  get_latest_block_number-Keeps = search keeps_rules

  pub get_latest_block_number-eq : (w : World) → get_latest_block_number w ≡ (ret (pos 0), w)
  unfolding get_latest_block_number
  get_latest_block_number-eq w = refl
