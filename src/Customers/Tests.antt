-- ===== src/Customers/Tests.antt =====
-- The theorems of the customers at concrete inputs.
use infinity_radius.Prelude.{none, some, [], ◌∷◌, ◌≡◌, refl, text, insert, lookup, arith}
use infinity_radius.Core.Errors.{ok, err, conflict}
use infinity_radius.Phones.{normalize_tz_phone}
use infinity_radius.Billing.Tables.{Billing, customer_created, self_registered}
use infinity_radius.Customers.{Fields, self_made, create, get_or_create_by_phone, new_customer}
use infinity_radius.Customers.Directory.{
  IsDirectory, Calls, done, created, paying, Calls-IsDirectory,
}
use infinity_radius.Customers.Returning.{get_or_create_by_phone_again, create_returning}
use infinity_radius.Billing.Counting.{count_rows}

abbrev nobody : Billing
nobody = record {
  packages = [];
  customers = [];
  subscriptions = [];
  batches = [];
  vouchers = [];
  audit = [];
}

abbrev asha : Fields
asha = record (self_made (text "0712345678")) {
  first_name = some (text "Asha");
  username = some (text "asha");
}

abbrev after_asha : Billing
after_asha = record nobody {
  customers = (7, new_customer 7 1 1 (record asha { phone = text "255712345678" })) ∷ [];
  audit = record { action = customer_created; target_id = 7; actor_id = some 3 } ∷ [];
}

abbrev after_juma : Billing
after_juma = record after_asha {
  customers =
      (7, new_customer 7 1 1 (record asha { phone = text "255712345678" }))
      ∷ (8, new_customer 8 1 2 (self_made (text "255655000111")))
      ∷ [];
  audit = record { action = self_registered; target_id = 8; actor_id = none } ∷ after_asha.audit;
}

asha_created : create 1 (some 3) 7 1 asha nobody ≡ ok after_asha
unfolding create insert
asha_created = refl

juma_pays : get_or_create_by_phone 1 8 2 (text "+255 655 000111") after_asha ≡ ok (8, after_juma)
unfolding get_or_create_by_phone insert
juma_pays = refl

empty-IsDirectory : IsDirectory nobody.customers
unfolding count_rows lookup
empty-IsDirectory = record {
  phone_once = λ t x. omega arith;
  username_once = λ t x. omega arith;
  are_canonical = λ k c e. cc;
}

both-Calls : Calls nobody after_juma
unfolding lookup
both-Calls =
    created 1 (some 3) 7 1 asha refl asha_created
      (paying 1 8 2 8 (text "+255 655 000111") refl juma_pays done)

Calls-IsDirectory_example : IsDirectory after_juma.customers
Calls-IsDirectory_example = Calls-IsDirectory nobody after_juma both-Calls empty-IsDirectory

same_number : normalize_tz_phone (text "0655-000-111") ≡ normalize_tz_phone (text "+255 655 000111")
unfolding normalize_tz_phone
same_number = refl

get_or_create_by_phone_again_example :
    (get_or_create_by_phone 1 9 3 (text "0655-000-111") after_juma ≡ ok (8, after_juma))
    × (create 1 (some 3) 9 3 (record asha { phone = text "0655-000-111" }) after_juma
        ≡ err conflict)
get_or_create_by_phone_again_example =
    get_or_create_by_phone_again 1 8 2 8 (text "+255 655 000111") (text "0655-000-111") after_asha
      after_juma (some 3) 9 3 asha juma_pays same_number

create_returning_example :
    get_or_create_by_phone 1 9 3 (text "0712345678") after_asha ≡ ok (7, after_asha)
create_returning_example =
    create_returning 1 (some 3) 7 1 asha (text "0712345678") nobody after_asha asha_created refl 9 3
