-- ===== src/Task/Plugin/Payment.antt =====
-- plugin/payment.go: the plugin of payments. Its configuration, what it stores, and the services
-- that it calls. Instants and durations are numbers of nanoseconds; a time to live is not negative.
pub mod Breakdown
pub mod Sessions
pub mod Methods
pub mod Calls
pub mod Amounts
pub mod Order
pub mod Completion
pub mod History
use Prim.Native.String
use nsw.Prelude.{ℕ, zero, suc, ◌+◌, ◌*◌, String, Bool, Option, none, List, ltb, ◌==◌, Result, Map}
use nsw.Json.{Value, Coding}

pub record BreakdownItem : Type 0 where
  pub category : String
  pub type_name : String
  pub quantity : String
  pub unit_price : String
  pub value : String

-- `PaymentConfig`, with the time to live in seconds
pub record PaymentConfig : Type 0 where
  pub currency : String
  pub ttl : ℕ
  pub org_id : String
  pub service_type : String
  pub breakdown : List BreakdownItem

pub record PaymentSession : Type 0 where
  pub transaction_id : String
  pub reference_number : String
  pub checkout_url : String
  pub org_name : String
  pub selected_method_id : String
  pub generated_at : ℕ
  pub initiated_at : Option ℕ

pub record PaymentTransaction : Type 0 where
  pub transaction_id : String
  pub reference_number : String
  pub initiated_at : ℕ
  pub resolved_at : ℕ
  pub status : String
  pub round : ℕ

-- `shopspring/decimal`
pub record Decimals (D : Type 0) : Type 0 where
  pub of_int : ℕ → D
  pub add : D → D → D
  pub sub : D → D → D
  pub mul : D → D → D
  pub div : D → D → D
  pub round : D → ℕ → D
  -- `NewFromString`, if there is no error
  pub of_text : String → Option D
  -- `NewFromFloat` of a number of a JSON value
  pub of_number : String → D

-- `ResolvedBreakdownItem`, without the description
pub record ResolvedItem (D : Type 0) : Type 0 where
  pub category : String
  pub type_name : String
  pub quantity : D
  pub unit_price : D
  pub amount : D

-- `CreateCheckoutRequest`
pub record CheckoutRequest (D : Type 0) : Type 0 where
  pub amount : D
  pub currency : String
  pub reference_number : String
  pub metadata : Map String
  pub expires_at : ℕ

pub record PaymentServices (D : Type 0) : Type 0 where
  pub decimals : Decimals D
  -- `PaymentService.CreateCheckoutSession`: the URL of the session
  pub create_checkout_session : CheckoutRequest D → Result String
  -- what the calls of `time.Now` give, by their place in the method
  pub now : ℕ → ℕ
  -- what the calls of `uuid.NewString` give
  pub uuid : ℕ → String
  -- `time.Parse` with the layout RFC 3339, if there is no error
  pub parse_time : String → Option ℕ
  pub values : Coding Value
  pub sessions : Coding PaymentSession
  pub transactions : Coding (List PaymentTransaction)

abbrev second : ℕ
second = 1000000000

-- `PaymentThreshold`
abbrev pub payment_threshold : ℕ
payment_threshold = 30 * second

-- `ttlDuration`
unfoldable pub ttl_duration : PaymentConfig → ℕ
ttl_duration config = config.ttl * second

-- the first characters of a text
unfoldable pub text_prefix : ℕ → String → String
text_prefix zero s = ""
text_prefix (suc n) String.[] = ""
text_prefix (suc n) (String.◌∷◌ c s) = String.◌∷◌ c (text_prefix n s)

-- `newSession`, with the two identifiers and the instant that it asks for
unfoldable pub new_session : String → String → ℕ → PaymentSession
unfolding text_prefix
new_session first second_id now = record {
  transaction_id = first;
  reference_number = String.◌++◌ "NSW-PAY-" (text_prefix 8 second_id);
  checkout_url = "";
  org_name = "";
  selected_method_id = "";
  generated_at = now;
  initiated_at = none;
}

-- `now.After(session.GeneratedAt.Add(ttl))`
unfoldable pub is_expired : PaymentConfig → PaymentSession → ℕ → Bool
unfolding ttl_duration
is_expired config session now = ltb (session.generated_at + ttl_duration config) now

-- `now.After(deadline)` of a payment that was initiated at the instant
unfoldable pub is_overdue : PaymentConfig → ℕ → ℕ → Bool
unfolding ttl_duration
is_overdue config initiated_at now =
    ltb (initiated_at + (ttl_duration config + payment_threshold)) now
