-- ===== src/Uds/Dispatch/Form.antt =====
-- The form of every reply.
use diagnostic_vehicle_simul.Prelude.{
  ℕ, ◌+◌, ◌/◌, ◌%◌, ◌≡◌, ◌⊎◌, refl, Bool, true, false, List, [], ◌∷◌, ◌++◌, arith, if◌then◌else◌,
  ◌==◌, length, get_or, head_or, ==→eq,
}
use diagnostic_vehicle_simul.Uds.Contract.{Dtc, EcuSnapshot}
use diagnostic_vehicle_simul.Uds.Handler.{
  Reply, response_only, negative, handle_request_transfer, handle_transfer_data,
  handle_request_transfer_exit, handle_diagnostic_session_control, handle_ecu_reset,
  handle_read_data_by_identifier, report_did,
}
use diagnostic_vehicle_simul.Uds.Security.{
  issue_seed, unlock, judge_key, receive_key, handle_security_access, handle_security_request_seed,
  handle_security_send_key,
}
use diagnostic_vehicle_simul.Uds.Dtcs.{
  handle_read_dtc_information, expect_length, report_dtc_count, report_dtcs_by_status_mask,
  report_supported_dtcs, append_matching, append_all, append_dtc,
}
use diagnostic_vehicle_simul.Uds.Dispatch.{
  handle_routine_control, handle_tester_present, route, handle_request,
}

-- A reply to a service: nothing, the positive response identifier first, or a refusal of three
-- bytes that names the service and changes nothing.
abbrev pub IsReplyTo : ℕ → Reply → Type 0
IsReplyTo sid reply =
    (reply.response ≡ [])
    ⊎ (head_or reply.response 0 ≡ sid + 0x40)
    ⊎ ((get_or reply.response 0 0 ≡ 0x7F)
        × (get_or reply.response 1 0 ≡ sid)
        × (length reply.response ≡ 3)
        × (reply.changes ≡ []))

either-IsReplyTo :
    (sid : ℕ) (b : Bool) (x y : Reply)
    → (b ≡ true → IsReplyTo sid x)
    → IsReplyTo sid y
    → IsReplyTo sid (if b then x else y)
either-IsReplyTo sid true x y p q = p refl
either-IsReplyTo sid false x y p q = q

head-append_matching :
    (mask a : ℕ) (dtcs : List Dtc) (rest : List ℕ)
    → head_or (append_matching mask dtcs (a ∷ rest)) 0 ≡ a
unfolding append_matching append_dtc
head-append_matching mask a [] rest = refl
head-append_matching mask a (d ∷ ds) rest = ground (
  arith,
  head-append_matching mask a ds rest,
  head-append_matching mask a ds (
      rest
      ++ ((d.dtc_code / 65536 % 256)
          ∷ (d.dtc_code / 256 % 256)
          ∷ (d.dtc_code % 256)
          ∷ d.status
          ∷ [])),
)

head-append_all :
    (a : ℕ) (dtcs : List Dtc) (rest : List ℕ) → head_or (append_all dtcs (a ∷ rest)) 0 ≡ a
unfolding append_all append_dtc
head-append_all a [] rest = refl
head-append_all a (d ∷ ds) rest = head-append_all a ds _

module _ (request : List ℕ) (s : EcuSnapshot) where
  transfer-IsReplyTo :
      (sid : ℕ) (rest : List ℕ) → IsReplyTo sid (handle_request_transfer (sid ∷ rest))
  unfolding handle_request_transfer negative response_only
  transfer-IsReplyTo sid rest = ground arith

  data-IsReplyTo : IsReplyTo 0x36 (handle_transfer_data request s)
  unfolding handle_transfer_data negative response_only
  data-IsReplyTo = ground arith

  exit-IsReplyTo : IsReplyTo 0x37 handle_request_transfer_exit
  unfolding handle_request_transfer_exit
  exit-IsReplyTo = ground arith

  control-IsReplyTo : IsReplyTo 0x10 (handle_diagnostic_session_control request s)
  unfolding handle_diagnostic_session_control negative response_only
  control-IsReplyTo = ground arith

  reset-IsReplyTo : IsReplyTo 0x11 (handle_ecu_reset request)
  unfolding handle_ecu_reset negative response_only
  reset-IsReplyTo = ground arith

  security-IsReplyTo : IsReplyTo 0x27 (handle_security_access request s)
  unfolding handle_security_access handle_security_request_seed handle_security_send_key issue_seed
      receive_key judge_key unlock negative response_only
  security-IsReplyTo = ground arith

  read-IsReplyTo : IsReplyTo 0x22 (handle_read_data_by_identifier request s)
  unfolding handle_read_data_by_identifier report_did negative response_only
  read-IsReplyTo = ground arith

  dtcs-IsReplyTo : IsReplyTo 0x19 (handle_read_dtc_information request s)
  unfolding handle_read_dtc_information expect_length report_dtc_count report_dtcs_by_status_mask
      report_supported_dtcs negative response_only
  dtcs-IsReplyTo = ground (
    arith,
    head-append_matching (get_or request 2 0) 0x59 s.dtcs (0x02 ∷ 0xFF ∷ []),
    head-append_all 0x59 s.dtcs (0x0A ∷ 0xFF ∷ []),
  )

  routine-IsReplyTo : IsReplyTo 0x31 (handle_routine_control request)
  unfolding handle_routine_control negative response_only
  routine-IsReplyTo = ground arith

  present-IsReplyTo : IsReplyTo 0x3E (handle_tester_present request)
  unfolding handle_tester_present negative response_only
  present-IsReplyTo = ground arith

  refused-IsReplyTo : (sid nrc : ℕ) → IsReplyTo sid (negative sid nrc)
  unfolding negative response_only
  refused-IsReplyTo sid nrc = ground arith

  -- The handler of another service, reached only by its own identifier.
  at : (sid n : ℕ) (x : Reply) → IsReplyTo n x → (sid == n) ≡ true → IsReplyTo sid x
  at sid n x p e = rw (==→eq sid n e) p

-- Whatever the request and the state of the unit, the reply to it is silence, a message that starts
-- with the positive response identifier of the requested service, or a refusal of three bytes that
-- names the requested service and changes no state.
pub handle_request-IsReplyTo :
    (sid : ℕ) (rest : List ℕ) (s : EcuSnapshot) → IsReplyTo sid (handle_request (sid ∷ rest) s)
unfolding handle_request route
handle_request-IsReplyTo sid rest s =
    either-IsReplyTo sid _ _ _ (λ e. refused-IsReplyTo r s sid 0x11)
      (either-IsReplyTo sid (sid == 0x10) _ _ (at r s sid 0x10 _ (control-IsReplyTo r s)) (
        either-IsReplyTo sid (sid == 0x11) _ _ (at r s sid 0x11 _ (reset-IsReplyTo r s)) (
          either-IsReplyTo sid (sid == 0x22) _ _ (at r s sid 0x22 _ (read-IsReplyTo r s)) (
            either-IsReplyTo sid (sid == 0x27) _ _ (at r s sid 0x27 _ (security-IsReplyTo r s)) (
              either-IsReplyTo sid (sid == 0x19) _ _ (at r s sid 0x19 _ (dtcs-IsReplyTo r s)) (
                either-IsReplyTo sid (sid == 0x31) _ _ (at r s sid 0x31 _ (routine-IsReplyTo r s)) (
                  either-IsReplyTo sid (sid == 0x3E) _ _ (at r s sid 0x3E _ (present-IsReplyTo r s))
                    (either-IsReplyTo sid _ _ _ (λ e. transfer-IsReplyTo r s sid rest)
                      (either-IsReplyTo sid (sid == 0x36) _ _
                        (at r s sid 0x36 _ (data-IsReplyTo r s))
                        (either-IsReplyTo sid (sid == 0x37) _ _
                          (at r s sid 0x37 _ (exit-IsReplyTo r s))
                          (refused-IsReplyTo r s sid 0x11)))))))))))
  where
    r : List ℕ
    r = sid ∷ rest
