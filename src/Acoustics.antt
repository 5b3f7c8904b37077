-- ===== src/Acoustics.antt =====
-- src/lib/acousticstoolbox: the description of an ocean environment (environment.proto) and the
-- files that the ray tracer BELLHOP reads (environment.cpp). A field of a message is its value, that is
-- the default where it is not set.
pub mod Profile
pub mod Matrix
pub mod EnvFile
pub mod Widths
pub mod Total
pub mod Ocean
mod Examples
use Prim.Native.String.{String}
use netsim.Prelude.{ℕ, Bool, List}
use netsim.Prelude.Int.{ℤ}

pub data MediumType : Type 0 where
  vacuum rigid half_space reflection_coefficient : MediumType

pub data Units : Type 0 where
  db_per_m_khz parameter_loss db_per_m nepers_per_m q_factor db_per_wavelength : Units

pub data SspInterpolation : Type 0 where
  cubic_spline c_linear n2_linear : SspInterpolation

pub data OutputType : Type 0 where
  arrival_times eigenrays rays coherent_pressure incoherent_pressure semicoherent_pressure :
      OutputType

pub data ApproximationType : Type 0 where
  geometric cartesian ray_centered gaussian : ApproximationType

module _ {ℓ} (D : Type ℓ) where
  pub record RcSample : Type ℓ where
    pub angle : D
    pub rc : D
    pub phase : D

  pub record Medium : Type ℓ where
    pub type : MediumType
    pub attenuation_units : Units
    pub attenuation_value : D
    pub cp : D
    pub cs : D
    pub density : D
    pub depth : D
    pub rc_sample : List RcSample

  pub record SspSample : Type ℓ where
    pub depth : D
    pub cp : D
    pub eof : List D

  pub record WaterColumn : Type ℓ where
    pub interpolation_type : SspInterpolation
    pub eof_coef : List D
    pub use_attenuation : Bool
    pub sample : List SspSample
    pub range : D
    pub bathymetry : D

  pub record Sources : Type ℓ where
    pub number_in_depth : ℕ
    pub first_depth : D
    pub last_depth : D

  pub record Receivers : Type ℓ where
    pub number_in_depth : ℕ
    pub number_in_range : ℕ
    pub first_depth : D
    pub first_range : D
    pub last_depth : D
    pub last_range : D

  pub record Beams : Type ℓ where
    pub approximation_type : ApproximationType
    pub theta_min : ℤ
    pub theta_max : ℤ
    pub number : ℕ

  pub record AdaptiveInfo : Type ℓ where
    pub contact : String
    pub ownship : String
    pub read_shd : Bool
    pub full_shd_matrix : Bool
    pub auto_receiver_ranges : Bool
    pub auto_receiver_ranges_delta : ℤ
    pub look_ahead_seconds : ℕ
    pub auto_source_depth : Bool

  pub record Environment : Type ℓ where
    pub title : String
    pub freq : ℕ
    pub output_type : OutputType
    pub surface : Medium
    pub water_column : List WaterColumn
    pub bottom : Medium
    pub sources : Sources
    pub receivers : Receivers
    pub beams : Beams
    pub adaptive_info : AdaptiveInfo
