-- ===== src/Quorum/Totals.antt =====
-- Sums over the goroutines of a number for each place.
use daemonjob.Prelude.{
  ℕ, ◌+◌, ◌*◌, ◌≤◌, ◌≡◌, refl, Bool, true, false, List, [], ◌∷◌, ◌++◌, length, All, arith,
}
use daemonjob.Quorum.{Place, Move, wake, wake_all, after_move}

abbrev pub total : (Place → ℕ) → List Place → ℕ
total f [] = 0
total f (p ∷ ps) = f p + total f ps

pub total-append : (f : Place → ℕ) (l r : List Place) → total f (l ++ r) ≡ total f l + total f r
total-append f [] r = omega arith
total-append f (p ∷ l) r = omega (arith, total-append f l r)

pub total_mid :
    (f : Place → ℕ) (l r : List Place) (p : Place)
    → total f (l ++ p ∷ r) ≡ total f l + f p + total f r
total_mid f l r p = omega (arith, total-append f l (p ∷ r))

pub total_le :
    (f g : Place → ℕ) → ((p : Place) → f p ≤ g p) → (ps : List Place) → total f ps ≤ total g ps
total_le f g h [] = omega arith
total_le f g h (p ∷ ps) = omega (arith, h p, total_le f g h ps)

-- A number that waking does not change.
pub total-wake_all :
    (f : Place → ℕ)
    → ((p : Place) → f (wake p) ≡ f p)
    → (b : Bool) (ps : List Place) → total f (wake_all b ps) ≡ total f ps
total-wake_all f h false ps = refl
total-wake_all f h true [] = refl
total-wake_all f h true (p ∷ ps) = omega (arith, h p, total-wake_all f h true ps)

pub total-after_move :
    (f : Place → ℕ)
    → ((p : Place) → f (wake p) ≡ f p)
    → (l r : List Place) (m : Move)
    → total f (after_move l r m).places ≡ total f l + f m.place + total f r
total-after_move f h l r m = omega (
  arith,
  total_mid f (wake_all m.wakes l) (wake_all m.wakes r) m.place,
  total-wake_all f h m.wakes l,
  total-wake_all f h m.wakes r,
)

-- A number that only suspended goroutines have: nobody is suspended after a Broadcast.
pub total-wake_none :
    (f : Place → ℕ)
    → ((p : Place) → f (wake p) ≡ 0)
    → (ps : List Place) → total f (wake_all true ps) ≡ 0
total-wake_none f h [] = refl
total-wake_none f h (p ∷ ps) = omega (arith, h p, total-wake_none f h ps)

-- A number that waking raises by at most `c`.
pub total-wake_le :
    (f : Place → ℕ) (c : ℕ)
    → ((p : Place) → f (wake p) ≤ f p + c)
    → (b : Bool) (ps : List Place) → total f (wake_all b ps) ≤ total f ps + c * length ps
total-wake_le f c h false ps = omega arith
total-wake_le f c h true [] = omega arith
total-wake_le f c h true (p ∷ ps) = ground (arith, h p, total-wake_le f c h true ps)

pub length-wake_all : (b : Bool) (ps : List Place) → length (wake_all b ps) ≡ length ps
length-wake_all false ps = refl
length-wake_all true [] = refl
length-wake_all true (p ∷ ps) = omega (arith, length-wake_all true ps)

pub total_zero :
    (f : Place → ℕ) (P : Place → Type 0)
    → ((p : Place) → P p → f p ≡ 0)
    → (ps : List Place) → All P ps
    → total f ps ≡ 0
total_zero f P h [] c = refl
total_zero f P h (p ∷ ps) (c, cs) = omega (arith, h p c, total_zero f P h ps cs)

pub total_same :
    (f g : Place → ℕ) (P : Place → Type 0)
    → ((p : Place) → P p → f p ≡ g p)
    → (ps : List Place) → All P ps
    → total f ps ≡ total g ps
total_same f g P h [] c = refl
total_same f g P h (p ∷ ps) (c, cs) = omega (arith, h p c, total_same f g P h ps cs)

pub total_le_where :
    (f g : Place → ℕ) (P : Place → Type 0)
    → ((p : Place) → P p → f p ≤ g p)
    → (ps : List Place) → All P ps
    → total f ps ≤ total g ps
total_le_where f g P h [] c = omega arith
total_le_where f g P h (p ∷ ps) (c, cs) = omega (arith, h p c, total_le_where f g P h ps cs)

pub total_le_sum :
    (f g k : Place → ℕ) (P : Place → Type 0)
    → ((p : Place) → P p → f p ≤ g p + k p)
    → (ps : List Place) → All P ps
    → total f ps ≤ total g ps + total k ps
total_le_sum f g k P h [] c = omega arith
total_le_sum f g k P h (p ∷ ps) (c, cs) = omega (arith, h p c, total_le_sum f g k P h ps cs)

pub total-le_const :
    (f : Place → ℕ) (c : ℕ)
    → ((p : Place) → f p ≤ c)
    → (ps : List Place) → total f ps ≤ c * length ps
total-le_const f c h [] = omega arith
total-le_const f c h (p ∷ ps) = ground (arith, h p, total-le_const f c h ps)
