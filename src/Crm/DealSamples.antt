-- ===== src/Crm/DealSamples.antt =====
-- Deals and requests to try the theorems at.
use django_crm_marscode.Prelude.{◌≡◌, refl, true, false, none, some, [], ◌∷◌, if◌then◌else◌}
use django_crm_marscode.Crm.Payments.{Payment, high_probability}
use django_crm_marscode.Crm.Deals.{
  DealStage, ClosingReason, Deal, Changed, SaveContext, save_model, save_related,
}
use django_crm_marscode.Crm.Deals.Steps.{InOrder}
use django_crm_marscode.Crm.Deals.Closing.{save_model_closing, save_model-save_related}
use django_crm_marscode.Prelude.Options.{◌>>=◌}

abbrev first_contact : DealStage
first_contact = record {
  ident = 1;
  department = some 7;
  default = true;
  second_default = false;
  success_stage = false;
  conditional_success_stage = false;
}

abbrev offer : DealStage
offer = record first_contact { ident = 2; default = false; second_default = true }

abbrev won : DealStage
won = record first_contact { ident = 3; default = false; success_stage = true }

abbrev success : ClosingReason
success = record { ident = 1; department = some 7; success_reason = true }

abbrev too_dear : ClosingReason
too_dear = record { ident = 2; department = some 7; success_reason = false }

abbrev context : SaveContext
context = record {
  user = 4;
  signature = 40 ∷ 98 ∷ 41 ∷ [];
  today = 100;
  now = 100000;
  stages = first_contact ∷ offer ∷ won ∷ [];
  closing_reasons = success ∷ too_dear ∷ [];
  department_of = λ user. some 7;
  truncatechars = λ text n. text;
}

abbrev closed_deal : Deal
closed_deal = record {
  ident = 9;
  request = some 5;
  ticket = 55;
  contact = none;
  company = none;
  country = none;
  city = none;
  currency = none;
  co_owner = none;
  owner = some 3;
  department = some 7;
  modified_by = none;
  next_step = 99 ∷ [];
  workflow = [];
  stage = some offer;
  stages_dates = [];
  closing_reason = some too_dear;
  closing_date = none;
  win_closing_date = none;
  lead = none;
  relevant = true;
  active = true;
  is_new = false;
}

abbrev changed : Changed
changed = record {
  next_step = false;
  closing_reason = true;
  stage = false;
  active = false;
  relevant = false;
  owner = false;
}

abbrev in_order : InOrder context (some 7)
in_order = record {
  first = first_contact;
  success = won;
  best = success;
  is_first = refl;
  is_success = refl;
  is_best = refl;
}

abbrev expected_payment : Payment
expected_payment = record {
  ident = 1;
  amount = 500;
  currency = none;
  deal = 9;
  payment_date = 120;
  status = high_probability;
}

save_model_closing_example :
    (d' : Deal) × (save_model context changed true closed_deal ≡ some d')
    × (d'.active ≡ false)
    × (d'.closing_date ≡ (if d'.active then none else some 100))
    × (d'.closing_reason ≡ some too_dear)
    × (d'.ident ≡ 9)
save_model_closing_example = save_model_closing context changed true closed_deal in_order refl

save_model-save_related_example :
    (save_model context changed true closed_deal
      >>= (λ d. save_related changed d (expected_payment ∷ [])))
    ≡ some []
save_model-save_related_example =
    save_model-save_related context changed true closed_deal (expected_payment ∷ []) in_order refl
