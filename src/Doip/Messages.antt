-- ===== src/Doip/Messages.antt =====
-- The payloads themselves (engine/crates/doip/src/messages.rs). `BuildDiagnosticAck` takes the
-- message that it answers, as in the source.
pub mod RoundTrip
use diagnostic_vehicle_simul.Prelude.{
  ℕ, ◌%◌, Bool, true, false, not, ◌&&◌, Option, none, some, List, [], ◌∷◌, ◌++◌, if◌then◌else◌, ltb,
  leb, ◌==◌, length, get_or, drop, u16_to_be, u16_from_be, u32_to_be, u32_from_be,
}
use diagnostic_vehicle_simul.Doip.Payload.{
  PayloadType, diagnostic_message_ack, diagnostic_message_nack,
}

-- The arrays of the source are lists here; their lengths are 17, 6 and 6.
pub record VehicleAnnouncement : Type 0 where
  pub vin : List ℕ
  pub logical_address : ℕ  -- u16
  pub eid : List ℕ
  pub gid : List ℕ
  pub further_action_required : ℕ  -- u8
  pub sync_status : Option ℕ  -- u8

-- The bytes of an optional tail.
abbrev pub tail_bytes {ℓ} : {A : Type ℓ} → (A → List ℕ) → Option A → List ℕ
tail_bytes f none = []
tail_bytes f (some a) = f a

unfoldable pub announcement_to_bytes : VehicleAnnouncement → List ℕ
announcement_to_bytes a =
    a.vin
    ++ (u16_to_be a.logical_address
        ++ (a.eid
            ++ (a.gid
                ++ (a.further_action_required ∷ tail_bytes (λ (b : ℕ). b ∷ []) a.sync_status))))

pub record RoutingActivationRequest : Type 0 where
  pub source_address : ℕ  -- u16
  pub activation_type : ℕ  -- u8
  pub reserved_iso : ℕ  -- u32
  pub reserved_oem : Option ℕ  -- u32

unfoldable pub request_from_bytes : List ℕ → Option RoutingActivationRequest
request_from_bytes payload =
    if not (length payload == 7) && not (length payload == 11)
    then none
    else some (record {
      source_address = u16_from_be (get_or payload 0 0) (get_or payload 1 0);
      activation_type = get_or payload 2 0;
      reserved_iso =
          u32_from_be (get_or payload 3 0) (get_or payload 4 0) (get_or payload 5 0)
            (get_or payload 6 0);
      reserved_oem =
          if length payload == 11
          then some (
              u32_from_be (get_or payload 7 0) (get_or payload 8 0) (get_or payload 9 0)
                (get_or payload 10 0))
          else none;
    })

pub data RoutingActivationOutcome : Type 0 where
  denied_unknown_source_address : RoutingActivationOutcome
  denied_all_sockets_registered : RoutingActivationOutcome
  denied_source_address_mismatch : RoutingActivationOutcome
  denied_source_address_in_use : RoutingActivationOutcome
  denied_missing_authentication : RoutingActivationOutcome
  denied_unsupported_activation_type : RoutingActivationOutcome
  activated : RoutingActivationOutcome

unfoldable pub outcome_code : RoutingActivationOutcome → ℕ
outcome_code denied_unknown_source_address = 0x00
outcome_code denied_all_sockets_registered = 0x01
outcome_code denied_source_address_mismatch = 0x02
outcome_code denied_source_address_in_use = 0x03
outcome_code denied_missing_authentication = 0x04
outcome_code denied_unsupported_activation_type = 0x06
outcome_code activated = 0x10

unfoldable pub is_activated : RoutingActivationOutcome → Bool
is_activated activated = true
is_activated _ = false

-- Whether the socket must be closed after the response goes out.
unfoldable pub outcome_closes_socket : RoutingActivationOutcome → Bool
outcome_closes_socket activated = false
outcome_closes_socket denied_missing_authentication = false
outcome_closes_socket _ = true

unfoldable pub build_routing_activation_response : ℕ → ℕ → RoutingActivationOutcome → List ℕ
build_routing_activation_response tester_address entity_address outcome =
    u16_to_be tester_address ++ (u16_to_be entity_address ++ (outcome_code outcome ∷ u32_to_be 0))

pub record DiagnosticMessage : Type 0 where
  pub source_address : ℕ  -- u16
  pub target_address : ℕ  -- u16
  pub user_data : List ℕ

unfoldable pub message_from_bytes : List ℕ → Option DiagnosticMessage
message_from_bytes payload =
    if ltb (length payload) 5
    then none
    else some (record {
      source_address = u16_from_be (get_or payload 0 0) (get_or payload 1 0);
      target_address = u16_from_be (get_or payload 2 0) (get_or payload 3 0);
      user_data = drop 4 payload;
    })

unfoldable pub message_to_bytes : DiagnosticMessage → List ℕ
message_to_bytes m = u16_to_be m.source_address ++ (u16_to_be m.target_address ++ m.user_data)

pub data DiagnosticNack : Type 0 where
  invalid_source_address : DiagnosticNack
  unknown_target_address : DiagnosticNack
  message_too_large : DiagnosticNack
  out_of_memory : DiagnosticNack
  target_unreachable : DiagnosticNack

unfoldable pub diagnostic_nack_code : DiagnosticNack → ℕ
diagnostic_nack_code invalid_source_address = 0x02
diagnostic_nack_code unknown_target_address = 0x03
diagnostic_nack_code message_too_large = 0x04
diagnostic_nack_code out_of_memory = 0x05
diagnostic_nack_code target_unreachable = 0x06

unfoldable pub diagnostic_nack_closes_socket : DiagnosticNack → Bool
diagnostic_nack_closes_socket invalid_source_address = true
diagnostic_nack_closes_socket _ = false

-- The addresses are those of the message being acknowledged, swapped.
unfoldable pub build_diagnostic_ack : DiagnosticMessage → ℕ → List ℕ
build_diagnostic_ack request ack_code =
    u16_to_be request.target_address ++ (u16_to_be request.source_address ++ (ack_code ∷ []))

abbrev pub ack_routing_confirmation : ℕ
ack_routing_confirmation = 0x00

pub record EntityStatus : Type 0 where
  pub node_type : ℕ  -- u8
  pub max_sockets : ℕ  -- u8
  pub open_sockets : ℕ  -- u8
  pub max_data_size : Option ℕ  -- u32

unfoldable pub status_to_bytes : EntityStatus → List ℕ
status_to_bytes s =
    s.node_type ∷ s.max_sockets ∷ s.open_sockets ∷ tail_bytes u32_to_be s.max_data_size

unfoldable pub build_alive_check_response : ℕ → List ℕ
build_alive_check_response source_address = u16_to_be source_address

-- `(0xE000..=0xEFFF).contains`.
unfoldable pub is_functional_address : ℕ → Bool
is_functional_address address = leb 0xE000 address && leb address 0xEFFF

unfoldable pub ack_payload_type : Bool → PayloadType
ack_payload_type true = diagnostic_message_ack
ack_payload_type false = diagnostic_message_nack
