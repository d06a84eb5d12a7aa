-- ===== src/Auth/Limits/BruteForce.antt =====
-- Runs of wrong codes against one session, for any of the verification methods of
-- src/modules/platform/auth/auth.service.ts that compare by `assertOtpMatch`.
use nestjs_boilerplate.Base.{
  ℕ, ◌+◌, ◌<◌, ◌≡◌, refl, leb, none, some, Text, if◌then◌else◌, arith, Bool-cases, inl, inr, List,
  [], ◌∷◌, length, All, ◌∙◌,
}
use nestjs_boilerplate.Shared.Redis.{Laws}
use nestjs_boilerplate.Auth.Services.{Services, World, Method, config_number}
use nestjs_boilerplate.Auth.Sessions.{otp_max_attempts}
use nestjs_boilerplate.Auth.Limits.Attempts.{failures, stored, CountsFailure}

-- The states that a run of calls goes through, whatever the calls return.
abbrev pub tries : {A W : Type 0} → (Text → W → A × W) → List Text → W → W
tries verify [] w = w
tries verify (g ∷ gs) w = tries verify gs (verify g w).1

module _ (s : Services) (laws : Laws s.redis) (key raw : Text) {A : Type 0}
    (verify : Text → Method s A) (IsWrong : Text → Type 0)
    (wrong : (g : Text) (w : World s)
      → IsWrong g
      → stored s laws key w ≡ some raw
      → CountsFailure s laws key w (verify g w).1)
    (gone : (g : Text) (w : World s)
      → stored s laws key w ≡ none
      → (stored s laws key (verify g w).1 ≡ none) × ((verify g w).1.db ≡ w.db)) where
  abbrev max : ℕ
  max = config_number s otp_max_attempts

  tries_gone :
      (gs : List Text) (w : World s)
      → stored s laws key w ≡ none
      → (stored s laws key (tries verify gs w) ≡ none) × ((tries verify gs w).db ≡ w.db)
  tries_gone [] w h = (h, refl)
  tries_gone (g ∷ gs) w h =
      let one = gone g w h in
      let rest = tries_gone gs (verify g w).1 one.0 in (rest.0, rest.1 ∙ one.1)

  -- After `length gs` more wrong codes the secret is kept, or it is gone.
  pub tries_lem :
      (gs : List Text) (w : World s)
      → All IsWrong gs
      → stored s laws key w ≡ some raw
      → failures s laws key w < max
      → let w' = tries verify gs w in
        (stored s laws key w'
          ≡ (if leb max (failures s laws key w + length gs) then none else some raw))
        × (w'.db ≡ w.db)
  tries_lem [] w bad held few = (ground arith, refl)
  tries_lem (g ∷ gs) w (b, bad) held few =
      let w' = (verify g w).1 in
      let one = wrong g w b held in
      elim (Bool-cases (leb max (failures s laws key w + 1))) [
        | inl burned ↦
            let empty : stored s laws key w' ≡ none = rw (one.0, burned) refl in
            let stays = tries_gone gs w' empty in (ground (arith, stays.0), stays.1 ∙ one.2)
        | inr kept ↦
            let still : stored s laws key w' ≡ some raw = rw (one.0, kept) held in
            let count : failures s laws key w' ≡ failures s laws key w + 1 =
              rw (one.1, kept) refl in
            let rest = tries_lem gs w' bad still (ground (arith, count)) in
            (ground (arith, rest.0, count), rest.1 ∙ one.2)
      ]
