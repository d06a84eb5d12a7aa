-- ===== src/Shared/Password/Tests.antt =====
-- A password for draws that are the moment's remainder.
use nestjs_boilerplate.Base.{ℕ, zero, suc, ◌%◌, ◌<◌, ◌≡◌, true, any, length, codes, arith}
use nestjs_boilerplate.Shared.Password.{
  generate_strong_password, shuffle, swap, set_at, get_at, pick, fill,
}
use nestjs_boilerplate.Shared.Password.Classes.{
  is_lower, is_upper, is_digit, is_special, generate_strong_password_lem,
}

abbrev remainder : ℕ → ℕ → ℕ
remainder moment zero = 0
remainder moment (suc n) = moment % suc n

remainder_lt : (moment n : ℕ) → 0 < n → remainder moment n < n
remainder_lt moment zero h = h
remainder_lt moment (suc n) h = omega arith

generate_strong_password_lem_example :
    let password = codes "Fe@IJNQRMPLTOK2S" in
    (length password ≡ 16)
    × (any is_lower password ≡ true)
    × (any is_upper password ≡ true)
    × (any is_digit password ≡ true)
    × (any is_special password ≡ true)
unfolding generate_strong_password shuffle swap set_at get_at pick fill
generate_strong_password_lem_example = generate_strong_password_lem remainder remainder_lt 30
