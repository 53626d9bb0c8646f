-- ===== src/Book/Levels/Order.antt =====
-- The order of the levels by their map's comparator.
use low_latency_exchange.Prelude.{true, false, [], ◌∷◌, ◌==◌, ◌≡◌, arith}
use low_latency_exchange.Types.{Price, Side, buy, sell}
use low_latency_exchange.Book.State.{Levels, before}
use low_latency_exchange.Book.Levels.{AreBehind}

pub before_trans :
    (side : Side) (p q r : Price)
    → before side p q ≡ true
    → before side q r ≡ true
    → before side p r ≡ true
before_trans buy p q r h k = ground arith
before_trans sell p q r h k = ground arith

pub before_irrefl : (side : Side) (p : Price) → before side p p ≡ false
before_irrefl buy p = ground arith
before_irrefl sell p = ground arith

pub before_asym : (side : Side) (p q : Price) → before side p q ≡ true → before side q p ≡ false
before_asym buy p q h = ground arith
before_asym sell p q h = ground arith

pub before_tri :
    (side : Side) (p q : Price) → before side p q ≡ false → before side q p ≡ false → p ≡ q
before_tri buy p q h k = ground arith
before_tri sell p q h k = ground arith

pub before-ne : (side : Side) (p q : Price) → before side p q ≡ true → (q == p) ≡ false
before-ne buy p q h = ground arith
before-ne sell p q h = ground arith

pub AreBehind-trans :
    (side : Side) (p q : Price) (levels : Levels)
    → before side p q ≡ true
    → AreBehind side q levels
    → AreBehind side p levels
AreBehind-trans side p q [] b h = tt
AreBehind-trans side p q ((r, level) ∷ levels) b h =
    (before_trans side p q r b h.0, AreBehind-trans side p q levels b h.1)
