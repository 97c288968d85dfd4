-- ===== src/Sxcups/Reporting.antt =====
-- sxcups/reporting.py: the Sx Report and its triggers.
pub mod Triggers
use v_epc_cups.Prelude.{ℕ, ◌%◌, String, true, Option, none, some, List, [], ◌∷◌, ◌++◌}
use v_epc_cups.Prelude.Results.{Result, ok, ◌>>=◌}
use v_epc_cups.Bytes.{Bytes, u8}
use v_epc_cups.Pfcp.Types.{session_report_request}
use v_epc_cups.Pfcp.Types.Ie
use v_epc_cups.Pfcp.Ies.{encode_ie, encode_grouped}
use v_epc_cups.Pfcp.Values.{ie_urr_id, ie_volume, ie_pdr_id, names_of_bits, Volume}
use v_epc_cups.Pfcp.Message.{Message, new_message, add}

abbrev pub trig_periodic : ℕ
trig_periodic = 0x0001

abbrev pub trig_volume_threshold : ℕ
trig_volume_threshold = 0x0002

abbrev pub trig_time_threshold : ℕ
trig_time_threshold = 0x0004

abbrev pub trig_quota_exhausted : ℕ
trig_quota_exhausted = 0x0008

abbrev pub trig_start_of_traffic : ℕ
trig_start_of_traffic = 0x0010

abbrev pub trig_stop_of_traffic : ℕ
trig_stop_of_traffic = 0x0020

abbrev pub trig_first_dl_data : ℕ
trig_first_dl_data = 0x0040

abbrev pub trigger_names : List (ℕ × String)
trigger_names =
    (trig_periodic, "PERIODIC")
    ∷ (trig_volume_threshold, "VOLUME_THRESHOLD")
    ∷ (trig_time_threshold, "TIME_THRESHOLD")
    ∷ (trig_quota_exhausted, "QUOTA_EXHAUSTED")
    ∷ (trig_start_of_traffic, "START_OF_TRAFFIC")
    ∷ (trig_stop_of_traffic, "STOP_OF_TRAFFIC")
    ∷ (trig_first_dl_data, "FIRST_DOWNLINK_DATA")
    ∷ []

unfoldable pub describe : ℕ → List String
describe trigger_bits = names_of_bits trigger_names trigger_bits

abbrev volume_ie : Option Volume → List Bytes
volume_ie none = []
volume_ie (some v) = ie_volume v.total v.uplink v.downlink ∷ []

unfoldable pub add_usage : ℕ → Option Volume → Option ℕ → Message → Result Message
add_usage triggers volume none m = ok m
add_usage triggers volume (some urr_id) m = do
  m' ← add m (encode_ie Ie.report_type (u8 (triggers % 256)))
  add m' (encode_grouped Ie.create_urr (ie_urr_id urr_id ∷ volume_ie volume))

unfoldable pub add_pdr : Option ℕ → Message → Result Message
add_pdr none m = ok m
add_pdr (some pdr_id) m = add m (encode_grouped Ie.created_pdr (ie_pdr_id pdr_id ∷ []))

unfoldable pub build_report_request :
    (seid seq triggers : ℕ) (urr_id : Option ℕ) (volume : Option Volume) (pdr_id : Option ℕ)
    → Result Message
unfolding add_usage add_pdr
build_report_request seid seq triggers urr_id volume pdr_id = do
  m ←
      add (new_message session_report_request seid seq [] true)
        (encode_ie Ie.report_type (u8 (triggers % 256)))
  m' ← add_usage triggers volume urr_id m
  add_pdr pdr_id m'
