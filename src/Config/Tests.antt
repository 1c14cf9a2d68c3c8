-- ===== src/Config/Tests.antt =====
-- Runs of the configuration code, and its properties at concrete inputs.
use pad_proxy.Base.{
  ◌≤◌, ◌≡◌, true, some, none, ◌++◌, Bytes, replicate, drop, take, refl, arith, Option,
}
use pad_proxy.Config.{init_config, validate}
use pad_proxy.Config.Valid.{IsStruct, IsValid, init-IsValid}
use pad_proxy.Config.Wire.{crc32_update, put_u16, put_u32, get_u16, get_u32}
use pad_proxy.Config.Serial.{serialize, deserialize, total_size, image}
use pad_proxy.Config.Serial.RoundTrip.{deserialize-serialize}
use pad_proxy.Config.Serial.Accepts.{deserialize_accepts}

abbrev flash : Bytes
flash = replicate 256 255

abbrev blob : Option Bytes
blob = (serialize (some init_config) (some flash) 256).1

reads_back : deserialize (some init_config) blob 256 ≡ (true, some init_config)
unfolding serialize deserialize validate init_config get_u32 put_u32 get_u16 put_u16 crc32_update
reads_back = refl

too_short : serialize (some init_config) (some flash) 143 ≡ (none, some flash)
unfolding serialize
too_short = refl

deserialize-serialize_example :
    (serialize (some init_config) (some flash) 256
      ≡ (some total_size, some (image init_config ++ drop total_size flash)))
    × (deserialize (some init_config) (serialize (some init_config) (some flash) 256).1 200
        ≡ (true, some init_config))
deserialize-serialize_example =
    deserialize-serialize init_config flash 256 200 init-IsValid.0 init-IsValid.1 (omega arith)
      (omega arith)

deserialize_accepts_example :
    (take total_size (image init_config) ≡ image init_config)
    × IsStruct init_config
    × IsValid init_config
    × (total_size ≤ 144)
unfolding deserialize validate init_config get_u32 put_u32 get_u16 put_u16 crc32_update
deserialize_accepts_example =
    deserialize_accepts init_config (image init_config) 144 (omega arith) refl refl
