-- ===== src/Browser/Times/Tests.antt =====
-- A clock.
use sneakerbid.Base.{◌≡◌, refl, true}
use sneakerbid.Browser.Times.{clock_of, is_expired}

an_hour : clock_of 3725 ≡ record { hours = 1; minutes = 2; seconds = 5 }
unfolding clock_of
an_hour = refl

-- In the last second the client takes the auction for over.
last_second : is_expired 60000 59001 ≡ true
unfolding is_expired
last_second = refl
