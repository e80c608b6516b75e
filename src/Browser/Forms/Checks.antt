-- ===== src/Browser/Forms/Checks.antt =====
-- What a form that is sent has passed.
use sneakerbid.Base.{
  ℕ, zero, suc, false, Option, none, some, ◌≡◌, refl, ◌&&◌, not, is_some, String, same_text,
  Bool-cases, inl, inr,
}
use sneakerbid.Base.Int.{pos, negsuc}
use sneakerbid.Browser.Forms.{
  Values, Number, Dto, shows, submits, is_blank, priced, dto_of, image_of, handle_submit,
}

shows-ne-submits : {s : String} {d : Dto} → shows s ≡ submits d → ⊥
shows-ne-submits h = cc

module _ (trim : String → String) (parse_int : String → Number) (to_iso : String → String) where
  -- The numbers and the end of a form that is sent.
  pub record IsPriced (v : Values) (dto : Dto) : Type 0 where
    pub start : (n : ℕ) × (dto.start_price ≡ pos n)
    pub increment : (n : ℕ) × (dto.minimum_increment ≡ pos (suc n))
    pub ends : same_text v.end_time "" ≡ false
    pub same_name : dto.model_name ≡ v.model_name
    pub same_brand : dto.brand ≡ v.brand
    pub same_size : dto.size ≡ v.size

  priced-IsPriced :
      (image : Option String) (v : Values) (s m : Number) (dto : Dto)
      → priced trim parse_int to_iso image v s m ≡ submits dto
      → IsPriced v dto
  priced-IsPriced image v none m dto h = absurd (shows-ne-submits h)
  priced-IsPriced image v (some (negsuc n)) m dto h = absurd (shows-ne-submits h)
  priced-IsPriced image v (some (pos n)) none dto h = absurd (shows-ne-submits h)
  priced-IsPriced image v (some (pos n)) (some (negsuc k)) dto h = absurd (shows-ne-submits h)
  priced-IsPriced image v (some (pos n)) (some (pos zero)) dto h = absurd (shows-ne-submits h)
  priced-IsPriced image v (some (pos n)) (some (pos (suc k))) dto h =
      elim (Bool-cases (same_text v.end_time "")) [
        | inl e ↦ absurd (shows-ne-submits (rw e at h))
        | inr e ↦
            let sent : submits (dto_of trim parse_int to_iso image v (pos n) (pos (suc k)))
                ≡ submits dto =
              rw e at h in
            let same : dto_of trim parse_int to_iso image v (pos n) (pos (suc k)) ≡ dto = cc in
            rw (← same) (record {
              start = (n, refl);
              increment = (k, refl);
              ends = e;
              same_name = refl;
              same_brand = refl;
              same_size = refl;
            })
      ]

  -- A form is sent only with an image, new or old, with a name and a brand that are not blank, a
  -- size, a start price that is not negative, an increment of at least one and an end, and what is
  -- sent has the name, the brand and the size that were entered.
  pub handle_submit-submits :
      (edited : Option String) (v : Values) (dto : Dto)
      → handle_submit trim parse_int to_iso edited v ≡ submits dto
      → ((not (is_some edited) && not v.has_image) ≡ false)
        × (is_blank trim parse_int to_iso v.model_name ≡ false)
        × (is_blank trim parse_int to_iso v.brand ≡ false)
        × (same_text v.size "" ≡ false)
        × IsPriced v dto
  unfolding handle_submit
  handle_submit-submits edited v dto h =
      elim (Bool-cases (not (is_some edited) && not v.has_image)) [
        | inl a ↦ absurd (shows-ne-submits (rw a at h))
        | inr a ↦ elim (Bool-cases (is_blank trim parse_int to_iso v.model_name)) [
          | inl b ↦ absurd (shows-ne-submits (rw b at rw a at h))
          | inr b ↦ elim (Bool-cases (is_blank trim parse_int to_iso v.brand)) [
            | inl c ↦ absurd (shows-ne-submits (rw c at rw b at rw a at h))
            | inr c ↦ elim (Bool-cases (same_text v.size "")) [
              | inl d ↦ absurd (shows-ne-submits (rw d at rw c at rw b at rw a at h))
              | inr d ↦ (
                a,
                b,
                c,
                d,
                priced-IsPriced (image_of trim parse_int to_iso edited v) v
                    (parse_int v.start_price) (parse_int v.minimum_increment) dto
                    (rw d at rw c at rw b at rw a at h),
              )
            ]
          ]
        ]
      ]
