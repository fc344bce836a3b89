-- ===== src/Application/Activity.antt =====
-- The activity events that the services capture (`NewActivityEvent` of domain/entities.ts).
use keyzori.Prelude.{String, Option}
use keyzori.Domain.Entities.{JsonObject}
use keyzori.Domain.Errors.{ApiErrorCode, internal_error, Failure, domain_error, internal}

pub data ActivityEventType : Type 0 where
  customer_created customer_updated customer_deleted : ActivityEventType
  license_created license_updated license_type_changed license_deleted : ActivityEventType
  license_revoked license_restored license_key_rotated : ActivityEventType
  activation_attempted activation_succeeded activation_rejected heartbeat deactivated :
      ActivityEventType
  meter_created meter_archived_event meter_adjusted : ActivityEventType
  usage_consumed usage_rejected : ActivityEventType
  stripe_linked stripe_unlinked stripe_synchronized stripe_webhook_failed : ActivityEventType

pub data ActivitySource : Type 0 where
  operator client stripe system : ActivitySource

pub data ActivityOutcome : Type 0 where
  success rejected error : ActivityOutcome

-- The reason of an event: the code of an error, or a text that an operator gave.
pub data ActivityReason : Type 0 where
  error_code : ApiErrorCode → ActivityReason
  operator_text : String → ActivityReason

pub record ActivityEvent : Type 0 where
  pub type : ActivityEventType
  pub source : ActivitySource
  pub outcome : ActivityOutcome
  pub reason : Option ActivityReason
  pub license_id : Option String
  pub customer_id : Option String
  pub key_prefix : Option String
  pub ip : Option String
  pub device_id : Option String
  pub details : JsonObject

-- `errorReason(error)`.
unfoldable pub error_reason : Failure → ApiErrorCode
error_reason (domain_error status code) = code
error_reason internal = internal_error
