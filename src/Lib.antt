-- ===== src/Lib.antt =====
-- A model of the vEPC CUPS simulator: the Sx interface (PFCP) between control-plane and user-plane
-- functions, the packet rules that it provisions, the GTP-U user plane, and the attach of a UE to the
-- EPC with its subscriber and policy servers.
--
-- A control-plane function asks a user-plane function (UPF) over PFCP to install a session with
-- its rules. The UPF classifies each packet by the detection rules of the session, applies the
-- action of the forwarding rule, and accounts for the bytes. GTP-U relays carry the packets from
-- hop to hop by tunnel number (TEID). A UE attaches by NAS messages that the eNodeB carries to the MME
-- in S1AP; the MME asks the HSS over Diameter for an authentication vector, compares the UE's response
-- with it, and asks the SGW-C over GTPv2-C for a session. The PCRF tells the PGW-C the subscriber's policy.
--
-- Prelude holds what the parts share: Booleans and lists on the native numbers, results with
-- Python's exceptions as values, insertion-ordered dictionaries, and bits. Bytes is struct.pack and
-- struct.unpack for the widths that the program uses.
--   * Pfcp: protocols/pfcp.py. Types has the message types and the IE numbers, Ies the framing and
--     the recursive decoder, Values the value codecs, Message the message codec.
--   * Sxcups: sxcups/. Rules has PDR, FAR, QER and URR with to_pfcp and from_pfcp, Session and Store
--     sxcups/session.py, Reporting sxcups/reporting.py.
--   * Gtp: protocols/gtp.py, the G-PDU codec.
--   * Tlv: the framing that the next two share. GtpC: protocols/gtp_c.py, with the message codec,
--     the F-TEID and the Bearer Context. S1ap: protocols/s1ap.py, with the message codec and the
--     lists of E-RABs.
--   * Nas: protocols/nas.py, with the message codec, the packed digits and the values of the IEs.
--   * Diameter: protocols/diameter.py, with Codes, the texts of AVPs, and the proofs on framing, loops
--     and round trips.
--   * Core.GtpuNode: core/gtpu.py, the relay. Core.Upf: core/upf.py, with its state, node and
--     session procedures, dispatch, forwarding and reports.
--   * Core.Cpf: core/cpf.py, with its state, receive path, requests, node and session procedures.
--   * Core.Hss: core/hss.py, with its state and handlers; Parse has the readers of its answers,
--     and AuthInfo, Answers, Unknown and Subscription are about them.
--     Core.Pcrf: core/pcrf.py. Core.Ue: core/ue.py. Core.Enb: core/enb.py, with Setup about its
--     contexts. Core.Pdn: core/pdn.py.
--   * Core.Procedures: how the handlers of the next two run. Core.Epc has what they share; Tunnels,
--     Policy, Downlink and Path are about them together with the MME, the PCRF and the eNodeB;
--     Challenge is about the UE, the eNodeB and the MME.
--     Core.Sgwc: core/epc_sgw_c.py, Core.Pgwc: core/epc_pgw_c.py, each with State, Messages and
--     handlers; Replies and Creation are about the sessions they set up, Pgwc.Addresses about the pool
--     of UE addresses, Sgwc.Tunnels about the TEIDs for S5-U. Pgwc.Request and Pgwc.Gx have the
--     exchange with the PCRF.
--   * Core.Mme: core/mme.py, with State, S11, Downlink, Request and S6a for its messages, and
--     Handlers; Identity is about what the Diameter requests of the MME and the PGW-C name,
--     Authentication and Attach about the MME together with the HSS and the UE, Numbers about the
--     numbers of its contexts.
--   * Tests: the theorems at concrete inputs.
--
-- A byte string is a list of numbers below 256, and writing a w-bit integer keeps its last w bits. An
-- IPv4 address is its 32-bit number, so inet_aton and inet_ntoa are the writing and the reading of
-- four bytes. A dictionary is a list of pairs in the order of insertion. A method that changes an
-- object takes the old state and returns the new one; a handler returns its answer, None or the
-- exception that ends it. What a method sends is a value with the address. The sender's clock is an
-- argument. A request of a CPF waits for its response on one thread while another handles what
-- arrives: the datagrams handled until the wait ends are an argument, so that a theorem for all of
-- them covers every interleaving and the timeout.
--
-- decode_ies and decode_ies_recursive run on fuel, the length of the bytes: each IE takes at least
-- four bytes, and the value of a grouped IE is shorter than the IE, so the fuel is never used up.
-- Python's limit on nested calls, which some thousand IEs one in the other would meet, is not modelled.
-- The TLV loops of GTP-C, S1AP and NAS run on the length of the bytes in the same way. The loop over the
-- AVPs of a Diameter message also has the length of the bytes for fuel, but the source's loop may stay
-- where it is for ever: then it uses up any fuel, and `none`, as the result of the readers and of the
-- handlers that call them, or as the end of a handler of the MME, is for a call that never ends. "%d"
-- has a digit for each unit of its fuel n + 1.
--
-- A text of the EPC functions is given by its UTF-8 bytes; an IMSI is ASCII where the UE packs it.
-- SHA-256 is a function from bytes to bytes, of which nothing is assumed. The answers to the requests
-- of the MME, the SGW-C (ask_pgw) and the PGW-C (ask_pcrf), which come over the network, are functions
-- of the request's bytes, with `none` for no answer in time. Their CPF's datagrams, before and during
-- a session procedure, are arguments as those of the CPF.
--
-- Left out: sockets, threads, timers and logging, but for a log line that raises; printing (dump,
-- summary); the text control sockets; the dashboards, launchers and simulators.
pub mod Prelude
pub mod Bytes
pub mod Pfcp
pub mod Sxcups
pub mod Gtp
pub mod Tlv
pub mod S1ap
pub mod GtpC
pub mod Nas
pub mod Core
pub mod Diameter
pub mod Tests
