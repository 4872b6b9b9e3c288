-- ===== src/Examples/Installs.antt =====
-- The transfer of a package of three bytes, from the manager's source to the agent's handler.
use review_protocol.Prelude.{All, ℕ, ◌≤◌, ◌+◌, ◌≡◌, refl, ok, List, [], ◌∷◌, arith}
use review_protocol.Server.Api.SendPackage.Chunks.{IsChunk}
use review_protocol.Request.PackageReader.Reads.{total}
use review_protocol.Prelude.{◌++◌}
use review_protocol.Wire.{Bytes, send_frame}
use review_protocol.Types.Node.Package.{install, proceed, done}
use review_protocol.Request.PackageReader.{new, next_chunk, drain, PackageReader}
use review_protocol.Request.PackageReader.Reads.{
  total, received, Reads, stop, chunk, chunks_within_size,
}
use review_protocol.Request.PackageReader.Drain.{drain_takes_the_payload}
use review_protocol.Request.Installer.{run_installer}
use review_protocol.Request.NodeHandler.{preflight, package_result}
use review_protocol.Request.Serve.{Agent, respond}
use review_protocol.Request.Package.{dispatch_node_package, receive_package, proceeds, conclude}
use review_protocol.Request.Package.Exchange.{
  installed, install_answers_with_the_result, install_success_has_the_payload,
}
use review_protocol.Server.Api.SendPackage.{send_package}
use review_protocol.Server.Api.SendPackage.Chunks.{IsChunk, send_package_sends_chunks}
use review_protocol.Server.Api.SendPackage.Succeeds.{send_package_succeeds}
use review_protocol.Server.Api.SendPackage.Delivery.{sent_package_is_installed}
use review_protocol.Examples.Samples.{
  payload, behind, fields, handler, idle, agent, source, zeros, zeros-Endless,
}
use review_protocol.Prelude.{◌++◌}

abbrev start : PackageReader
start = new (received payload behind) 3

start-Reads : Reads start payload (record start { recv = behind; remaining = 0 })
unfolding next_chunk new
start-Reads = chunk refl (chunk refl stop)

chunks_within_size_example :
    (received payload behind ≡ received payload behind) × (3 ≤ 3) × (3 + 0 ≡ 3)
unfolding new
chunks_within_size_example = chunks_within_size (received payload behind) 3 payload _ start-Reads

drained_example : (drain start).0 ≡ ok tt
unfolding drain next_chunk new
drained_example = refl

drain_takes_the_payload_example :
    (cs : List Bytes) × (start.recv ≡ received cs (drain start).1.recv)
    × (total cs ≡ start.remaining)
drain_takes_the_payload_example = drain_takes_the_payload start drained_example

reported_example :
    (dispatch_node_package handler (install fields) agent).1.send.sent
    ≡ preflight (ok proceed) ∷ package_result (ok done) ∷ []
unfolding dispatch_node_package receive_package respond drain next_chunk new run_installer conclude
    handler proceeds send_frame
reported_example = refl

install_success_has_the_payload_example :
    (cs : List Bytes) × (agent.recv
      ≡ received cs (dispatch_node_package handler (install fields) agent).1.recv)
    × (total cs ≡ 3)
unfolding handler
install_success_has_the_payload_example =
    install_success_has_the_payload handler fields agent done refl refl reported_example

install_answers_with_the_result_example :
    let (r, w') = dispatch_node_package handler (install fields) agent in
    (r ≡ ok tt)
    × (w'.send.sent
        ≡ preflight (ok proceed) ∷ package_result (installed handler fields agent).0 ∷ [])
    × (w'.recv ≡ behind)
    × (w'.handler ≡ (installed handler fields agent).1)
unfolding handler
install_answers_with_the_result_example =
    install_answers_with_the_result handler fields agent payload behind refl refl refl refl
      (omega arith, (omega arith, tt)) (omega arith)

send_package_sends_chunks_example :
    (chunks : List Bytes) × ((send_package source 3 (1 ∷ 2 ∷ []) idle).2.sent ≡ [] ++ chunks)
    × All IsChunk chunks
    × (total chunks ≤ 3)
send_package_sends_chunks_example = send_package_sends_chunks source 3 (1 ∷ 2 ∷ []) idle

send_package_succeeds_example :
    ((send_package zeros 3 tt idle).0 ≡ ok tt)
    × (chunks : List Bytes) × ((send_package zeros 3 tt idle).2.sent ≡ [] ++ chunks)
    × All IsChunk chunks
    × (total chunks ≡ 3)
send_package_succeeds_example = send_package_succeeds zeros 3 tt idle zeros-Endless refl

abbrev whole : List Bytes
whole = (1 ∷ 2 ∷ 3 ∷ []) ∷ []

sent_whole : (send_package source 3 (1 ∷ 2 ∷ 3 ∷ []) idle).2.sent ≡ whole
unfolding send_package send_frame
sent_whole = refl

sent_ok : (send_package source 3 (1 ∷ 2 ∷ 3 ∷ []) idle).0 ≡ ok tt
unfolding send_package send_frame
sent_ok = refl

abbrev receiving : Agent ℕ
receiving = record agent { recv = received whole behind }

sent_package_is_installed_example :
    let (r, w') = dispatch_node_package handler (install fields) receiving in
    (r ≡ ok tt)
    × (w'.send.sent
        ≡ preflight (ok proceed) ∷ package_result (installed handler fields receiving).0 ∷ [])
    × (w'.recv ≡ behind)
    × (w'.handler ≡ (installed handler fields receiving).1)
unfolding handler
sent_package_is_installed_example =
    sent_package_is_installed source handler fields (1 ∷ 2 ∷ 3 ∷ []) idle whole behind receiving
      (omega arith) sent_ok sent_whole refl refl refl
