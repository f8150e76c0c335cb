-- ===== src/Text/Fuel.antt =====
-- The fuel of the two functions that count down is enough.
use eterrain_tf_upload.Base.{
  ℕ, zero, suc, ◌-◌, ◌/◌, ◌≤◌, ◌<◌, ◌≡◌, refl, [], ◌∷◌, arith, length, drop, ◌==◌, Bool-cases,
  ==_iff, inl, inr,
}
use eterrain_tf_upload.Text.{Bytes, trim_by, show_onto}

-- Any two amounts of fuel above n print the same.
pub show_onto_enough :
    (fuel other n : ℕ) (out : Bytes)
    → n < fuel
    → n < other
    → show_onto fuel n out ≡ show_onto other n out
unfolding show_onto
show_onto_enough zero other n out h k = absurd (omega arith)
show_onto_enough (suc fuel) zero n out h k = absurd (omega arith)
show_onto_enough (suc fuel) (suc other) n out h k = elim (Bool-cases (n / 10 == 0)) [
  | inl e ↦ rw e refl
  | inr e ↦
      let more : 1 ≤ n / 10 = ground arith in
      rw e (show_onto_enough fuel other (n / 10) _ (omega (arith, more)) (omega (arith, more)))
]

length-drop : (k : ℕ) (s : Bytes) → length (drop k s) ≡ length s - k
length-drop zero s = omega arith
length-drop (suc k) [] = omega arith
length-drop (suc k) (c ∷ s) = omega (arith, length-drop k s)

-- With its length as fuel, a text is trimmed until it begins with no character that has a width.
pub trim_by_enough :
    (width : Bytes → ℕ) (fuel : ℕ) (s : Bytes)
    → width [] ≡ 0
    → length s ≤ fuel
    → width (trim_by width fuel s) ≡ 0
unfolding trim_by
trim_by_enough width zero [] w h = w
trim_by_enough width zero (c ∷ s) w h = absurd (omega arith)
trim_by_enough width (suc fuel) s w h = elim (Bool-cases (width s == 0)) [
  | inl e ↦ rw e ((==_iff (width s) 0).0 e)
  | inr e ↦
      let more : 1 ≤ width s = ground arith in
      rw e (
        trim_by_enough width fuel (drop (width s) s) w
          (omega (arith, length-drop (width s) s, more)))
]
