-- ===== src/Doip/Messages/RoundTrip.antt =====
-- Payloads written and read back, and the lengths that are read against the table of permitted ones.
use diagnostic_vehicle_simul.Prelude.{
  ℕ, ◌+◌, ◌/◌, ◌%◌, ◌≡◌, none, some, List, [], ◌∷◌, ◌++◌, arith, IsByte, IsU16, length,
  length-append, All, if◌then◌else◌, is_some, is_empty,
}
use diagnostic_vehicle_simul.Doip.Payload.{
  routing_activation_request, diagnostic_message, accepts_payload_length,
}
use diagnostic_vehicle_simul.Doip.Messages.{
  VehicleAnnouncement, announcement_to_bytes, request_from_bytes, DiagnosticMessage,
  message_from_bytes, message_to_bytes, build_diagnostic_ack, tail_bytes,
}

-- A diagnostic message whose addresses fit in 16 bits reads back as it was written, unless it
-- carries no user data: that one is written but never read.
pub message_from_bytes-message_to_bytes :
    (m : DiagnosticMessage)
    → IsU16 m.source_address
    → IsU16 m.target_address
    → message_from_bytes (message_to_bytes m) ≡ (if is_empty m.user_data then none else some m)
unfolding message_from_bytes message_to_bytes
message_from_bytes-message_to_bytes m s t = ground arith

-- A payload of bytes that reads as a diagnostic message is the payload that this message writes.
pub message_to_bytes-message_from_bytes :
    (payload : List ℕ) (m : DiagnosticMessage)
    → All IsByte payload
    → message_from_bytes payload ≡ some m
    → message_to_bytes m ≡ payload
unfolding message_from_bytes message_to_bytes
message_to_bytes-message_from_bytes [] m b e = ground arith
message_to_bytes-message_from_bytes (b₀ ∷ []) m b e = ground arith
message_to_bytes-message_from_bytes (b₀ ∷ b₁ ∷ []) m b e = ground arith
message_to_bytes-message_from_bytes (b₀ ∷ b₁ ∷ b₂ ∷ []) m b e = ground arith
message_to_bytes-message_from_bytes (b₀ ∷ b₁ ∷ b₂ ∷ b₃ ∷ rest) m b e = ground arith

-- The acknowledgement of a message reads back as a message from its target to its source that
-- carries the code alone.
pub message_from_bytes-build_diagnostic_ack :
    (m : DiagnosticMessage) (ack_code : ℕ)
    → IsU16 m.source_address
    → IsU16 m.target_address
    → message_from_bytes (build_diagnostic_ack m ack_code)
      ≡ some (record {
        source_address = m.target_address;
        target_address = m.source_address;
        user_data = ack_code ∷ [];
      })
unfolding message_from_bytes build_diagnostic_ack
message_from_bytes-build_diagnostic_ack m ack_code s t = ground arith

-- The lengths that the header check lets through are exactly the ones that the two readers take:
-- for a routing activation request and for a diagnostic message.
pub readers-accepts_payload_length :
    (payload : List ℕ)
    → (is_some (request_from_bytes payload)
        ≡ accepts_payload_length routing_activation_request (length payload))
      × (is_some (message_from_bytes payload)
          ≡ accepts_payload_length diagnostic_message (length payload))
unfolding request_from_bytes message_from_bytes accepts_payload_length
readers-accepts_payload_length payload = (ground arith, ground arith)

-- The arrays of an announcement have their sizes.
abbrev pub IsSized : VehicleAnnouncement → Type 0
IsSized a = (length a.vin ≡ 17) × (length a.eid ≡ 6) × (length a.gid ≡ 6)

length_parts :
    (v e g t : List ℕ) (x y z : ℕ)
    → length (v ++ (x ∷ y ∷ (e ++ (g ++ (z ∷ t))))) ≡ 3 + length v + length e + length g + length t
length_parts v e g t x y z = ground (
  arith,
  length-append v (x ∷ y ∷ (e ++ (g ++ (z ∷ t)))),
  length-append e (g ++ (z ∷ t)),
  length-append g (z ∷ t),
)

pub length-announcement_to_bytes :
    (a : VehicleAnnouncement)
    → IsSized a
    → length (announcement_to_bytes a) ≡ 32 + length (tail_bytes (λ (b : ℕ). b ∷ []) a.sync_status)
unfolding announcement_to_bytes
length-announcement_to_bytes a h = ground (
  arith,
  length_parts a.vin a.eid a.gid (tail_bytes (λ (b : ℕ). b ∷ []) a.sync_status)
      (a.logical_address / 256 % 256) (a.logical_address % 256) a.further_action_required,
)
