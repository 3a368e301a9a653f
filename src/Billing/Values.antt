-- ===== src/Billing/Values.antt =====
-- The payload of a provider's event as apps/api/src/services/billing-webhook.service.ts reads it:
-- values of any shape, and the extractors that tell a missing or misshapen one.
use uptimeflow.Common.{ℕ, ◌*◌, Bool, false, Option, none, some, [], ◌∷◌, if◌then◌else◌}
use uptimeflow.Common.Text.{Text, codes, text_eq}
use uptimeflow.Enums.{Instant}

mutual
  pub data Value : Type 0 where
    nothing : Value
    text : Text → Value
    number : ℕ → Value
    boolean : Bool → Value
    items : Items → Value
    object : Fields → Value

  pub data Items : Type 0 where
    end : Items
    item : Value → Items → Items

  pub data Fields : Type 0 where
    done : Fields
    field : Text → Value → Fields → Fields

-- `o[name]`, where `o` may be no object
unfoldable pub lookup : Text → Fields → Value
unfolding text_eq
lookup name done = nothing
lookup name (field key value rest) =
    let later = lookup name rest in if text_eq key name then value else later

unfoldable pub member : Text → Value → Value
unfolding lookup
member name (object fields) = lookup name fields
member name _ = nothing

-- `v?.[0]`
abbrev pub first_of_items : Value → Value
first_of_items (items (item v rest)) = v
first_of_items _ = nothing

abbrev pub non_empty : Text → Option Text
non_empty [] = none
non_empty (c ∷ s) = some (c ∷ s)

abbrev pub str : Value → Option Text
str (text s) = non_empty s
str _ = none

abbrev pub num : Value → Option ℕ
num (number n) = some n
num _ = none

abbrev seconds : Option ℕ → Option Instant
seconds none = none
seconds (some n) = some (n * 1000)

-- The provider sends seconds.
abbrev pub unix_to_date : Value → Option Instant
unix_to_date v = seconds (num v)

abbrev pub is_true : Value → Bool
is_true (boolean b) = b
is_true _ = false

abbrev pub meta_org : Value → Option Text
meta_org o = str (member (codes "organizationId") (member (codes "metadata") o))

pub record SubItem : Type 0 where
  pub price_id : Option Text
  pub quantity : Option ℕ
  pub period_end : Option Instant

abbrev sub_item : Value → SubItem
sub_item first = record {
  price_id = str (member (codes "id") (member (codes "price") first));
  quantity = num (member (codes "quantity") first);
  period_end = unix_to_date (member (codes "current_period_end") first);
}

abbrev pub first_item : Value → SubItem
first_item o = sub_item (first_of_items (member (codes "data") (member (codes "items") o)))
