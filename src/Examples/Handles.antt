-- ===== src/Examples/Handles.antt =====
-- An agent of any kind that counts the runs that it cancels, and the frames of a few requests.
use review_protocol.Prelude.{ℕ, suc, ◌≡◌, refl, inl, inr, ok, err, none, [], ◌∷◌, List, Result}
use review_protocol.ProtocolError.{IoError}
use review_protocol.Wire.{Bytes}
use review_protocol.Wire.Laws.{Grew}
use review_protocol.Codes.Client.{RequestCode, from_primitive}
use review_protocol.Request.NodeHandler.{recv_error, error, acknowledged, NodeReply}
use review_protocol.Request.Handler.{Handler, default_handler, node_handler}
use review_protocol.Request.Serve.{Agent, undecodable_args_message, classified}
use review_protocol.Request.Package.Exchange.{replied}
use review_protocol.Request.HandleNode.{unknown_code_message, handle_node}
use review_protocol.Request.HandleNode.Counts.{ReplyCount}
use review_protocol.Request.Handle.{AgentCodec, dispatch_any, handle, serve_method}
use review_protocol.Request.Handle.Loop.{handle-Runs}
use review_protocol.Request.ServeLoop.Runs.{Runs}
use review_protocol.Request.Handle.Nodes.{handle_refines_handle_node}
use review_protocol.Request.Handle.Flat.{
  codes_without_an_arm_are_refused, bad_arguments_are_answered,
}
use review_protocol.Request.Handle.Compat.{
  wire_formats_act_alike, flat_requests_reach_the_flat_methods, KeepsDefaults,
}
use review_protocol.Request.Handle.Compat as Compat
use review_protocol.Request.Handle.Counts.{all_replies_counted}
use review_protocol.Request.Handle.Service.{AgentRequest, replies_to_all}
use review_protocol.Request.Handle.Service as Service
use review_protocol.Request.Handle.Answered.{answered}
use review_protocol.Request.Handle.Refines.{handle_refines_the_service, AllFramed, nil, cons}
use review_protocol.Examples.Samples.{codec, idle, bad_data, undecodable}
use review_protocol.Prelude.{map}

abbrev pub read_id : Bytes → Result ℕ IoError
read_id [] = err bad_data
read_id (n ∷ rest) = ok n

abbrev pub agent_codec : AgentCodec ℕ
agent_codec = record {
  node = codec;
  parse_text = undecodable;
  parse_texts = undecodable;
  parse_policies = undecodable;
  parse_policy_ids = undecodable;
  parse_networks = undecodable;
  parse_rules = undecodable;
  parse_deletion = undecodable;
  parse_train_model = undecodable;
  parse_clone_model = undecodable;
  parse_run_id = read_id;
  parse_detector_id = undecodable;
  debug_observation = λ other. "Uptime";
}

unfoldable pub counting : Handler ℕ ℕ
unfolding default_handler
counting = record default_handler { cancel_run = λ run_id h. (ok tt, suc h) }

abbrev on : List Bytes → Agent ℕ
on frames = record { handler = 0; send = idle; recv = map ok frames }

abbrev waiting : Agent ℕ
waiting = on ((25 ∷ 7 ∷ []) ∷ [])

counting-KeepsDefaults : KeepsDefaults counting agent_codec
unfolding counting default_handler
counting-KeepsDefaults = record { power = refl; observation = refl }

-- A ping and two runs to cancel.
abbrev three_requests : List (AgentRequest ℕ)
three_requests =
    Service.AgentRequest.echo_request
    ∷ Service.AgentRequest.cancel_run 7
    ∷ Service.AgentRequest.cancel_run 8
    ∷ []

abbrev three_frames : List Bytes
three_frames = (17 ∷ []) ∷ (25 ∷ 7 ∷ []) ∷ (25 ∷ 8 ∷ []) ∷ []

three-AllFramed : AllFramed counting agent_codec three_requests three_frames
unfolding from_primitive
three-AllFramed =
    cons (record { code = 17; body = []; splits = refl; names = refl; carries = tt })
      (cons (record { code = 25; body = 7 ∷ []; splits = refl; names = refl; carries = refl })
        (cons (record { code = 25; body = 8 ∷ []; splits = refl; names = refl; carries = refl })
          nil))

handle_refines_the_service_example : handle counting agent_codec (on three_frames) ≡ (
  ok tt,
  record (answered (replies_to_all counting agent_codec three_requests 0) (on three_frames)) {
    recv = [];
  },
)
handle_refines_the_service_example =
    handle_refines_the_service counting agent_codec three_requests three_frames (on three_frames)
      three-AllFramed refl refl

handle_refines_handle_node_example :
    handle counting agent_codec (on ((103 ∷ []) ∷ (77 ∷ []) ∷ []))
    ≡ handle_node (node_handler counting) codec (on ((103 ∷ []) ∷ (77 ∷ []) ∷ []))
unfolding from_primitive
handle_refines_handle_node_example =
    handle_refines_handle_node counting agent_codec (on ((103 ∷ []) ∷ (77 ∷ []) ∷ []))
      (tt, (tt, tt))

handle-Runs_example :
    Runs codec.split_request
      (dispatch_any counting agent_codec)
      waiting
      (handle counting agent_codec waiting)
handle-Runs_example = handle-Runs counting agent_codec waiting

codes_without_an_arm_are_refused_example :
    dispatch_any counting agent_codec (from_primitive 11) 11 [] waiting
    ≡ (ok tt, replied (error (unknown_code_message 11)) waiting)
codes_without_an_arm_are_refused_example =
    codes_without_an_arm_are_refused counting agent_codec 11 [] waiting refl (inr (inl refl))

bad_arguments_are_answered_example :
    dispatch_any counting agent_codec RequestCode.cancel_run 25 [] waiting ≡ (
      err (recv_error (classified none bad_data)),
      replied (error (undecodable_args_message 25)) waiting,
    )
bad_arguments_are_answered_example =
    bad_arguments_are_answered counting agent_codec RequestCode.cancel_run 25 [] waiting bad_data
      refl refl

wire_formats_act_alike_example :
    (dispatch_any counting agent_codec RequestCode.reboot 4 [] waiting).1.handler
    ≡ (dispatch_any counting agent_codec RequestCode.node_power 106 [] waiting).1.handler
wire_formats_act_alike_example =
    wire_formats_act_alike counting agent_codec RequestCode.reboot RequestCode.node_power 4 106 []
      [] waiting (Compat.SameOperation.reboot refl)

flat_requests_reach_the_flat_methods_example :
    (dispatch_any counting agent_codec RequestCode.reboot 4 [] waiting
      ≡ serve_method counting.reboot acknowledged waiting)
    × (dispatch_any counting agent_codec RequestCode.shutdown 4 [] waiting
        ≡ serve_method counting.shutdown acknowledged waiting)
    × (dispatch_any counting agent_codec RequestCode.resource_usage 4 [] waiting
        ≡ serve_method counting.resource_usage NodeReply.usage waiting)
    × (dispatch_any counting agent_codec RequestCode.process_list 4 [] waiting
        ≡ serve_method counting.process_list NodeReply.processes waiting)
flat_requests_reach_the_flat_methods_example =
    flat_requests_reach_the_flat_methods counting agent_codec 4 [] waiting counting-KeepsDefaults

all_replies_counted_example :
    (n : ℕ) × ReplyCount (node_handler counting) codec RequestCode.cancel_run (7 ∷ []) n
    × Grew waiting.send n
        (dispatch_any counting agent_codec RequestCode.cancel_run 25 (7 ∷ []) waiting).1.send
all_replies_counted_example =
    all_replies_counted counting agent_codec RequestCode.cancel_run 25 (7 ∷ []) waiting refl
