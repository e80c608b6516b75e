-- ===== src/Browser/Scrolling/Tests.antt =====
-- A run of a list that grows.
use sneakerbid.Base.{ℕ, [], ◌∷◌, ◌≡◌, refl}
use sneakerbid.Browser.Scrolling.{mount, scroll}

-- Two entries at a time: the second page is there, the third is asked for.
second_page : (scroll {T = ℕ} 2 1 (mount 2 (1 ∷ 2 ∷ 3 ∷ 4 ∷ 5 ∷ []))).items ≡ 1 ∷ 2 ∷ 3 ∷ 4 ∷ []
unfolding scroll mount
second_page = refl
