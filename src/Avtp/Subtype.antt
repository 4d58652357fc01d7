-- ===== src/Avtp/Subtype.antt =====
-- src/avtp/subtype.rs, and `HeaderType` of src/avtp/headers/mod.rs.
pub mod Laws
use rs.Prelude.{ℕ, ◌≡◌, Bool, ◌==◌, if◌then◌else◌}
use rs.Io.{
  Outcome, ok, err, IoError, IoWrapError, io, specific, M, ◌>>=◌, pure, lift, hoist, map_err,
}
use rs.Io.Stream.{BitReader, BitWriter}

pub data HeaderType : Type 0 where
  control stream alternative : HeaderType

pub HeaderType-discrete : Discrete HeaderType
HeaderType-discrete = hlevel

pub data EncapsulationStyle : Type 0 where
  continuous discrete : EncapsulationStyle

pub data UnknownSubtype : Type 0 where
  unknown_subtype : ℕ → UnknownSubtype

pub data Subtype : Type 0 where
  iec_61883_iidc mma_stream aaf cvf crf tscf svf rvf aef_continuous vsf_stream ef_stream ntscf escf
        eecf aef_discrete adp aecp acmp maap ef_control :
      Subtype

pub Subtype-discrete : Discrete Subtype
Subtype-discrete = hlevel

-- `*self as u8`: the discriminants.
unfoldable pub to_u8 : Subtype → ℕ
to_u8 iec_61883_iidc = 0x00
to_u8 mma_stream = 0x01
to_u8 aaf = 0x02
to_u8 cvf = 0x03
to_u8 crf = 0x04
to_u8 tscf = 0x05
to_u8 svf = 0x06
to_u8 rvf = 0x07
to_u8 aef_continuous = 0x6e
to_u8 vsf_stream = 0x6f
to_u8 ef_stream = 0x7f
to_u8 ntscf = 0x82
to_u8 escf = 0xec
to_u8 eecf = 0xed
to_u8 aef_discrete = 0xee
to_u8 adp = 0xfa
to_u8 aecp = 0xfb
to_u8 acmp = 0xfc
to_u8 maap = 0xfd
to_u8 ef_control = 0xff

-- `Subtype::try_from(raw)`, by the discriminants.
unfoldable pub try_from : ℕ → Outcome UnknownSubtype Subtype
try_from raw =
    if raw == 0x00
    then ok iec_61883_iidc
    else if raw == 0x01
    then ok mma_stream
    else if raw == 0x02
    then ok aaf
    else if raw == 0x03
    then ok cvf
    else if raw == 0x04
    then ok crf
    else if raw == 0x05
    then ok tscf
    else if raw == 0x06
    then ok svf
    else if raw == 0x07
    then ok rvf
    else if raw == 0x6e
    then ok aef_continuous
    else if raw == 0x6f
    then ok vsf_stream
    else if raw == 0x7f
    then ok ef_stream
    else if raw == 0x82
    then ok ntscf
    else if raw == 0xec
    then ok escf
    else if raw == 0xed
    then ok eecf
    else if raw == 0xee
    then ok aef_discrete
    else if raw == 0xfa
    then ok adp
    else if raw == 0xfb
    then ok aecp
    else if raw == 0xfc
    then ok acmp
    else if raw == 0xfd
    then ok maap
    else if raw == 0xff
    then ok ef_control
    else err (unknown_subtype raw)

unfoldable pub header_type : Subtype → HeaderType
header_type iec_61883_iidc = stream
header_type mma_stream = stream
header_type aaf = stream
header_type cvf = stream
header_type crf = alternative
header_type tscf = stream
header_type svf = stream
header_type rvf = stream
header_type aef_continuous = alternative
header_type vsf_stream = stream
header_type ef_stream = stream
header_type ntscf = alternative
header_type escf = alternative
header_type eecf = alternative
header_type aef_discrete = alternative
header_type adp = control
header_type aecp = control
header_type acmp = control
header_type maap = control
header_type ef_control = control

unfoldable pub encapsulation_style : Subtype → EncapsulationStyle
encapsulation_style iec_61883_iidc = continuous
encapsulation_style mma_stream = continuous
encapsulation_style aaf = continuous
encapsulation_style cvf = continuous
encapsulation_style crf = continuous
encapsulation_style tscf = continuous
encapsulation_style svf = continuous
encapsulation_style rvf = continuous
encapsulation_style aef_continuous = continuous
encapsulation_style vsf_stream = continuous
encapsulation_style ef_stream = continuous
encapsulation_style ntscf = discrete
encapsulation_style escf = discrete
encapsulation_style eecf = discrete
encapsulation_style aef_discrete = discrete
encapsulation_style adp = discrete
encapsulation_style aecp = discrete
encapsulation_style acmp = discrete
encapsulation_style maap = discrete
encapsulation_style ef_control = discrete

module _ ⦃w : BitWriter⦄ where
  unfoldable pub encode : Subtype → M w.Writer IoError (Unit {0})
  encode s = w.write_from 8 (to_u8 s)

module _ ⦃r : BitReader⦄ where
  unfoldable pub decode : M r.Reader (IoWrapError UnknownSubtype) Subtype
  decode = do raw ← lift io (r.read_to 8); hoist (map_err specific (try_from raw))
