-- ===== src/Combat/Roll.antt =====
-- combat/roll.go: chance rolls. HMAC-SHA-256 is a parameter: a function of the key and of the bytes
-- written to it, whose result is a list of bytes.
use roost_skill.Common.{
  ℕ, zero, suc, ◌+◌, ◌*◌, ◌/◌, ◌%◌, ◌<◌, Bool, true, false, if◌then◌else◌, ◌++◌, List, [], ◌∷◌, ◌≡◌,
  arith,
}
use roost_skill.Common.Int.{ℤ, pos, ltb_ℤ, leb_ℤ}
use roost_skill.Combat.FixedMath.{basis_point_scale}

-- binary.BigEndian.PutUint64: the last `n` bytes of a number.
unfoldable pub big_endian : ℕ → ℕ → List ℕ
big_endian zero x = []
big_endian (suc n) x = big_endian n (x / 256) ++ x % 256 ∷ []

-- binary.BigEndian.Uint64 of the first `n` bytes.
unfoldable pub read_big_endian : ℕ → ℕ → List ℕ → ℕ
read_big_endian zero acc bytes = acc
read_big_endian (suc n) acc [] = acc
read_big_endian (suc n) acc (b ∷ bytes) = read_big_endian n (256 * acc + b) bytes

unfoldable pub written : List ℕ → List ℕ → List ℕ
unfolding big_endian
written purpose [] = purpose
written purpose (c ∷ cs) = written (purpose ++ big_endian 8 c) cs

module _ (hmac : List ℕ → List ℕ → List ℕ) where
  unfoldable pub roll_value : List ℕ → List ℕ → List ℕ → ℤ
  unfolding written read_big_endian
  roll_value key purpose coordinates =
      pos (read_big_endian 8 0 (hmac key (written purpose coordinates)) % 10000)

  unfoldable pub chance_roll : List ℕ → List ℕ → ℤ → List ℕ → Bool
  unfolding roll_value
  chance_roll key purpose chance_bp coordinates =
      if leb_ℤ chance_bp (pos 0)
      then false
      else if leb_ℤ basis_point_scale chance_bp
      then true
      else ltb_ℤ (roll_value key purpose coordinates) chance_bp

  -- Whatever the HMAC, a chance succeeds just where the roll is below it, at every chance: the shortcuts at 0 and
  -- at 10000 basis points change no answer.
  pub chance_roll-roll_value :
      (key purpose : List ℕ) (chance_bp : ℤ) (coordinates : List ℕ)
      → chance_roll key purpose chance_bp coordinates
        ≡ ltb_ℤ (roll_value key purpose coordinates) chance_bp
  unfolding chance_roll roll_value
  chance_roll-roll_value key purpose chance_bp coordinates =
      shortcut (read_big_endian 8 0 (hmac key (written purpose coordinates)) % 10000) chance_bp
        (omega arith)
    where
      shortcut :
          (r : ℕ) (c : ℤ)
          → r < 10000
          → (if leb_ℤ c (pos 0)
              then false
              else if leb_ℤ basis_point_scale c
              then true
              else ltb_ℤ (pos r) c)
            ≡ ltb_ℤ (pos r) c
      shortcut r c h = ground arith
