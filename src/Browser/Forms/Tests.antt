-- ===== src/Browser/Forms/Tests.antt =====
-- An empty form.
use sneakerbid.Base.{none, ◌≡◌, refl}
use sneakerbid.Browser.Forms.{initial_values, handle_submit, shows}

empty_form :
    handle_submit (λ s. s) (λ s. none) (λ s. s) none initial_values ≡ shows "상품 이미지를 등록해주세요."
unfolding handle_submit initial_values
empty_form = refl
