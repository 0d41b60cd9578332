-- ===== src/Achievements/Stays.antt =====
-- `unlock_achievement` cannot begin its transaction inside that of another part, and gives up.
use cs.Base.{some, ℕ}
use cs.Types.{AchievementType}
use cs.Db.Tables.{Tables}
use cs.Db.Monad.Transaction.{Stays, Stays-bind, Stays-return_if}
use cs.Db.Stays.{Stays-nested}
use cs.Achievements.{unlock_achievement}

pub unlock_achievement-Stays :
    {t : Tables} (u : ℕ) (k : AchievementType) → Stays (some t) (unlock_achievement u k)
unfolding unlock_achievement
unlock_achievement-Stays u k = Stays-bind _ _ (Stays-return_if _ 1) (λ _. Stays-nested 1 _)
